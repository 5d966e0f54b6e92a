-- ===== src/Gate/Evidence.antt =====
-- `checkEvidence` accepts exactly what covers every gate with admissible evidence only.
use api_score.Base.{
  ℕ, ◌≡◌, ◌↔◌, ◌⊎◌, inl, inr, refl, sym, ap, ◌∙◌, true, Option, none, some, List, [], ◌∷◌, arith,
  ==_refl, is_some, Bool-cases, and_parts, and_true,
}
use api_score.Base.Rows.{exists_where}
use api_score.Base.Quantifiers.{AllOf, AnyOf, AllOf-map, AnyOf-map}
use api_score.Gate.Dedupe.{dedupe-AllOf, AllOf-dedupe, dedupe-AnyOf, AnyOf-dedupe}
use api_score.Domain.{GateKey, gate_eq, go}
use api_score.Gate.{
  GateEvidence, EvidenceReason, Judgement, covers, rejects, judge, requires, evidence_by_id,
  examine, is_empty, missing_from, dedupe, check_evidence,
}

-- Evidence that counts: it is there, for this control, with the verdict GO and an approver.
pub record IsSatisfied (control_id : ℕ) (e : GateEvidence) : Type 0 where
  pub control : e.control_id ≡ control_id
  pub verdict : e.verdict ≡ go
  pub approved : is_some e.approved_by_user_id ≡ true

-- The identifier names such evidence, for the gate `gate`, and the gate is one of the required.
abbrev pub Proves : List GateKey → List GateEvidence → ℕ → GateKey → ℕ → Type 0
Proves required found control_id gate id =
    (e : GateEvidence) × (evidence_by_id id found ≡ some e)
    × IsSatisfied control_id e
    × (e.gate_key ≡ gate)
    × (requires required gate ≡ true)

judge-covers :
    (required : List GateKey) (control_id : ℕ) (o : Option GateEvidence) (g : GateKey)
    → judge required control_id o ≡ covers g
    → (e : GateEvidence) × (o ≡ some e)
      × IsSatisfied control_id e
      × (e.gate_key ≡ g)
      × (requires required g ≡ true)
judge-covers required control_id none g h = absurd (ground arith)
judge-covers required control_id (some e) g h = (e, refl, ground arith, ground arith, ground arith)

covers-judge :
    (required : List GateKey) (control_id : ℕ) (e : GateEvidence) (g : GateKey)
    → IsSatisfied control_id e
    → e.gate_key ≡ g
    → requires required g ≡ true
    → judge required control_id (some e) ≡ covers g
covers-judge required control_id e g s k r = ground arith

pub gate_eq→eq : (a b : GateKey) → gate_eq a b ≡ true → a ≡ b
gate_eq→eq a b h = ground arith

gate_eq_refl : (a : GateKey) → gate_eq a a ≡ true
gate_eq_refl a = ==_refl _

Judgement-cases :
    (j : Judgement) → ((g : GateKey) × (j ≡ covers g)) ⊎ ((r : EvidenceReason) × (j ≡ rejects r))
Judgement-cases (covers g) = inl (g, refl)
Judgement-cases (rejects r) = inr (r, refl)

module _ (required : List GateKey) (found : List GateEvidence) (control_id : ℕ) where
  -- Nothing is rejected exactly when every identifier covers some gate.
  examine-none_rejected :
      (ids : List ℕ)
      → is_empty (examine required found control_id ids).0 ≡ true
      → AllOf
          (λ id. (g : GateKey) × (judge required control_id (evidence_by_id id found) ≡ covers g))
          ids
  unfolding examine
  examine-none_rejected [] h = tt
  examine-none_rejected (id ∷ ids) h =
      elim (Judgement-cases (judge required control_id (evidence_by_id id found))) [
        | inl (g, e) ↦ ((g, e), examine-none_rejected ids (rw e at h))
        | inr (r, e) ↦ cc (rw e at h)
      ]

  examine-all_covering :
      (ids : List ℕ)
      → AllOf
          (λ id. (g : GateKey) × (judge required control_id (evidence_by_id id found) ≡ covers g))
          ids
      → is_empty (examine required found control_id ids).0 ≡ true
  unfolding examine
  examine-all_covering [] h = refl
  examine-all_covering (id ∷ ids) ((g, e), rest) = rw e (examine-all_covering ids rest)

  -- A gate is covered exactly when some identifier covers it.
  examine-covered :
      (g : GateKey) (ids : List ℕ)
      → exists_where (gate_eq g) (examine required found control_id ids).1 ≡ true
      → AnyOf (λ id. judge required control_id (evidence_by_id id found) ≡ covers g) ids
  unfolding examine
  examine-covered g [] h = cc
  examine-covered g (id ∷ ids) h =
      elim (Judgement-cases (judge required control_id (evidence_by_id id found))) [
        | inl (k, e) ↦ elim (Bool-cases (gate_eq g k)) [
          | inl same ↦ inl (e ∙ ap covers (sym (gate_eq→eq g k same)))
          | inr differs ↦ inr (examine-covered g ids (rw (e, differs) at h))
        ]
        | inr (r, e) ↦ inr (examine-covered g ids (rw e at h))
      ]

  examine-covers :
      (g : GateKey) (ids : List ℕ)
      → AnyOf (λ id. judge required control_id (evidence_by_id id found) ≡ covers g) ids
      → exists_where (gate_eq g) (examine required found control_id ids).1 ≡ true
  unfolding examine
  examine-covers g [] h = absurd h
  examine-covers g (id ∷ ids) (inl e) = rw (e, gate_eq_refl g)
  examine-covers g (id ∷ ids) (inr r) =
      elim (Judgement-cases (judge required control_id (evidence_by_id id found))) [
        | inl (k, e) ↦ rw (e, examine-covers g ids r) (ground arith)
        | inr (b, e) ↦ rw e (examine-covers g ids r)
      ]

missing_from-empty :
    (covered required : List GateKey)
    → is_empty (missing_from covered required) ≡ true
    → AllOf (λ g. exists_where (gate_eq g) covered ≡ true) required
missing_from-empty covered [] h = tt
missing_from-empty covered (g ∷ gs) h = elim (Bool-cases (exists_where (gate_eq g) covered)) [
  | inl t ↦ (t, missing_from-empty covered gs (rw t at h))
  | inr f ↦ cc (rw f at h)
]

empty-missing_from :
    (covered required : List GateKey)
    → AllOf (λ g. exists_where (gate_eq g) covered ≡ true) required
    → is_empty (missing_from covered required) ≡ true
empty-missing_from covered [] h = refl
empty-missing_from covered (g ∷ gs) (t, rest) = rw t (empty-missing_from covered gs rest)

module _ (required : List GateKey) (provided : List ℕ) (found : List GateEvidence)
    (control_id : ℕ) where
  -- Every identifier proves a required gate, and every required gate is proved by some identifier.
  abbrev pub Accepts : Type 0
  Accepts =
      AllOf (λ id. (g : GateKey) × Proves required found control_id g id) provided
      × AllOf (λ g. AnyOf (Proves required found control_id g) provided) required

  judge_of :
      (g : GateKey) (id : ℕ)
      → Proves required found control_id g id
      → judge required control_id (evidence_by_id id found) ≡ covers g
  judge_of g id (e, f, s, k, r) = rw f (covers-judge required control_id e g s k r)

  -- The check accepts exactly when every identifier proves one of the required gates, and every
  -- required gate is proved by some identifier.
  pub check_evidence_iff :
      ((check_evidence required provided found control_id).is_ok ≡ true) ↔ Accepts
  unfolding check_evidence
  check_evidence_iff = (
    λ h.
        let (complete, clean) = and_parts h in
        (
          AllOf-map provided (λ id j. (j.0, judge-covers required control_id _ j.0 j.1))
              (dedupe-AllOf
                (λ id.
                  (g : GateKey) × (judge required control_id (evidence_by_id id found) ≡ covers g))
                provided (examine-none_rejected required found control_id (dedupe provided) clean)),
          AllOf-map required
              (λ g c.
                AnyOf-map provided (λ id j. judge-covers required control_id _ g j)
                  (dedupe-AnyOf
                    (λ id. judge required control_id (evidence_by_id id found) ≡ covers g) provided
                    (examine-covered required found control_id g (dedupe provided) c)))
              (missing_from-empty (examine required found control_id (dedupe provided)).1 required
                complete),
        ),
    λ a.
        and_true
          (empty-missing_from (examine required found control_id (dedupe provided)).1 required (
            AllOf-map required
              (λ g c. examine-covers required found control_id g (dedupe provided) (
                AnyOf-dedupe (λ id. judge required control_id (evidence_by_id id found) ≡ covers g)
                  provided (AnyOf-map provided (λ id j. judge_of g id j) c)))
              a.1))
          (examine-all_covering required found control_id (dedupe provided) (
            AllOf-dedupe
              (λ id.
                (g : GateKey) × (judge required control_id (evidence_by_id id found) ≡ covers g))
              provided (AllOf-map provided (λ id j. (j.0, judge_of j.0 id j.1)) a.0))),
  )
