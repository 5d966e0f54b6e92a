-- ===== src/Gate.antt =====
-- Transitions between execution modes and the evidence that they need:
-- backend/src/execution/gate-policy.service.ts and the entity ExecutionGateEvidence.
pub mod Transitions
pub mod Dedupe
pub mod Evidence
use api_score.Base.{
  ℕ, suc, Bool, true, false, not, ◌&&◌, ◌||◌, Option, none, some, List, [], ◌∷◌, ltb, leb, ◌==◌,
  if◌then◌else◌, is_some,
}
use api_score.Base.Rows.{exists_where, select_where}
use api_score.Base.Tx.{Result, ok, err, http, bad_request}
use api_score.Domain.{
  ExecutionMode, disabled, mode_index, mode_eq, GateKey, gate_eq, gates_required_to_enter,
  GateVerdict, go, no_go,
}

pub data TransitionDirection : Type 0 where
  up down same : TransitionDirection

pub record TransitionShape : Type 0 where
  pub direction : TransitionDirection
  pub allowed : Bool

-- `delta` is the difference of the two places in MODE_ORDER.
unfoldable pub transition_shape : ExecutionMode → ExecutionMode → TransitionShape
transition_shape from to =
    if mode_index to == mode_index from
    then record { direction = same; allowed = false }
    else if ltb (mode_index from) (mode_index to)
    then record { direction = up; allowed = mode_index to == suc (mode_index from) }
    else record {
      direction = down;
      allowed = suc (mode_index to) == mode_index from || mode_eq to disabled;
    }

abbrev pub gates_for : TransitionDirection → ExecutionMode → List GateKey
gates_for up to = gates_required_to_enter to
gates_for _ to = []

unfoldable pub required_gates : ExecutionMode → ExecutionMode → List GateKey
unfolding transition_shape
required_gates from to = gates_for (transition_shape from to).direction to

-- A row of `execution_gate_evidence`, by the columns that the policy reads.
pub record GateEvidence : Type 0 where
  pub id : ℕ
  pub control_id : ℕ
  pub gate_key : GateKey
  pub verdict : GateVerdict
  pub approved_by_user_id : Option ℕ

pub data EvidenceReason : Type 0 where
  unknown_evidence other_control bad_verdict no_approver not_required : EvidenceReason

pub record EvidenceCheck : Type 0 where
  pub is_ok : Bool
  pub missing_gates : List GateKey
  pub rejected : List (ℕ × EvidenceReason)

-- `Map.get`, for a map filled from `found`: the last row of that id.
abbrev pub evidence_by_id : ℕ → List GateEvidence → Option GateEvidence
evidence_by_id id [] = none
evidence_by_id id (e ∷ es) = elim (evidence_by_id id es) [
  | some l ↦ some l
  | none ↦ if e.id == id then some e else none
]

abbrev pub remove : ℕ → List ℕ → List ℕ
remove x [] = []
remove x (y ∷ ys) = if x == y then remove x ys else y ∷ remove x ys

-- `new Set(ids)`, in order of first occurrence.
abbrev pub dedupe : List ℕ → List ℕ
dedupe [] = []
dedupe (x ∷ xs) = x ∷ remove x (dedupe xs)

pub data Judgement : Type 0 where
  covers : GateKey → Judgement
  rejects : EvidenceReason → Judgement

abbrev pub is_go : GateVerdict → Bool
is_go go = true
is_go no_go = false

abbrev pub requires : List GateKey → GateKey → Bool
requires required gate = exists_where (gate_eq gate) required

-- The ladder of `checkEvidence` for one identifier.
abbrev pub judge : List GateKey → ℕ → Option GateEvidence → Judgement
judge required control_id none = rejects unknown_evidence
judge required control_id (some e) =
    if not (e.control_id == control_id)
    then rejects other_control
    else if not (is_go e.verdict)
    then rejects bad_verdict
    else if not (is_some e.approved_by_user_id)
    then rejects no_approver
    else if not (requires required e.gate_key)
    then rejects not_required
    else covers e.gate_key

abbrev pub collect :
    ℕ
    → Judgement
    → List (ℕ × EvidenceReason) × List GateKey
    → List (ℕ × EvidenceReason) × List GateKey
collect id (covers g) (rejected, covered) = (rejected, g ∷ covered)
collect id (rejects r) (rejected, covered) = ((id, r) ∷ rejected, covered)

-- The loop over the identifiers.
unfoldable pub examine :
    List GateKey → List GateEvidence → ℕ → List ℕ → List (ℕ × EvidenceReason) × List GateKey
examine required found control_id [] = ([], [])
examine required found control_id (id ∷ ids) =
    collect id (judge required control_id (evidence_by_id id found))
      (examine required found control_id ids)

abbrev pub is_empty {ℓ} : {A : Type ℓ} → List A → Bool
is_empty [] = true
is_empty (_ ∷ _) = false

abbrev pub missing_from : List GateKey → List GateKey → List GateKey
missing_from covered required = select_where (λ g. not (exists_where (gate_eq g) covered)) required

unfoldable pub check_evidence : List GateKey → List ℕ → List GateEvidence → ℕ → EvidenceCheck
unfolding examine
check_evidence required provided found control_id =
    let (rejected, covered) = examine required found control_id (dedupe provided) in
    record {
      is_ok = is_empty (missing_from covered required) && is_empty rejected;
      missing_gates = missing_from covered required;
      rejected = rejected;
    }

-- `findBy({ id: In(ids) })`
abbrev pub evidence_in : List ℕ → List GateEvidence → List GateEvidence
evidence_in ids = select_where (λ e. exists_where (λ i. i == e.id) ids)

-- `assertTransitionAllowed`, over the table of evidence.
unfoldable pub assert_transition_allowed :
    List GateEvidence → ℕ → ExecutionMode → ExecutionMode → List ℕ → Result (Unit {0})
assert_transition_allowed table control_id from to ids =
    let check = check_evidence (required_gates from to) ids (evidence_in ids table) control_id in
    if is_empty (required_gates from to)
    then ok tt
    else if check.is_ok
    then ok tt
    else err (http bad_request)

-- `record`: evidence is kept only for a period that has a length, and always with its approver.
unfoldable pub record_evidence :
    ℕ → ℕ → ℕ → GateEvidence → List GateEvidence → Result (List GateEvidence)
record_evidence period_from period_to approver e table =
    if leb period_to period_from
    then err (http bad_request)
    else ok (record e { approved_by_user_id = some approver } ∷ table)
