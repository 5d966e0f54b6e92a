-- ===== src/Reconciliation/Lookups.antt =====
-- Every key that is asked for is answered; an operator that does not answer changes nothing.
use api_score.Base.{
  ℕ, ◌≡◌, ◌≢◌, refl, sym, ◌∙◌, ==_refl, ap, inl, inr, Bool, true, false, not, ◌&&◌, ◌||◌, Option,
  none, some, List, [], ◌∷◌, ◌++◌, map, arith, Bool-cases, ◌==◌, if◌then◌else◌, ==_iff,
}
use mathlib.Core.Path.{subst}
use api_score.Base.Rows.{exists_where, select_where}
use api_score.Base.Quantifiers.{AllOf}
use api_score.Base.Tx.{ok}
use api_score.Money.{Text}
use api_score.Domain.{OrderStatus}
use api_score.Orders.Defs.{Order, OrderStore, status_eq}
use api_score.Orders.Service.{Call, ◌>>=◌, pure}
use api_score.Reconciliation.Defs.{
  Answer, LookupStatus, reason, incomplete_answer, OperatorOrderLookup, OperatorPort,
  ReconciliationEnv,
}
use api_score.Reconciliation.Lookup.{
  unique, returned, status_in, lookup_unique, lookup_operator_orders, keys_of,
}
use api_score.Reconciliation.Repair.{Resolved, resolve_answered, resolve_row, resolve_rows}

abbrev pub is_key : List ℕ → ℕ → Bool
is_key keys key = exists_where (λ k. k == key) keys

-- The status of the key in the answer, if the key was asked for.
abbrev pub answered : (ℕ → LookupStatus) → List ℕ → ℕ → Option LookupStatus
answered status keys key = if is_key keys key then some (status key) else none

returned-map :
    (status : ℕ → LookupStatus) (keys : List ℕ) (key : ℕ)
    → returned key (map (λ k. record { idempotency_key = k; status = status k }) keys)
      ≡ answered status keys key
returned-map status [] key = refl
returned-map status (k ∷ ks) key = elim (Bool-cases (k == key)) [
  | inl t ↦
      let same : status k ≡ status key = ap status ((==_iff k key).0 t) in
      ground (arith, returned-map status ks key)
  | inr n ↦ ground (arith, returned-map status ks key)
]

is_key-select :
    (p : ℕ → Bool) (keys : List ℕ) (key : ℕ)
    → ((k : ℕ) → (k == key) ≡ true → p k ≡ p key)
    → is_key (select_where p keys) key ≡ (p key && is_key keys key)
is_key-select p [] key h = ground arith
is_key-select p (k ∷ ks) key h = ground (arith, is_key-select p ks key h, h k)

unique_keeps : (keys : List ℕ) (key : ℕ) → is_key (unique keys) key ≡ is_key keys key
unique_keeps [] key = refl
unique_keeps (k ∷ ks) key =
    let rest = is_key-select (λ j. not (j == k)) (unique ks) key (λ j e. ground arith) in
    ground (arith, rest, unique_keeps ks key)

lookup_unique-returned :
    (port : OperatorPort) (keys : List ℕ) (key : ℕ)
    → returned key (lookup_unique port keys)
      ≡ answered (status_in (port.orders_by_key keys)) keys key
lookup_unique-returned port [] key = refl
lookup_unique-returned port (k ∷ ks) key =
    returned-map (status_in (port.orders_by_key (k ∷ ks))) (k ∷ ks) key

lookup_operator_orders-status_in :
    (port : OperatorPort) (keys : List ℕ) (key : ℕ)
    → returned key (lookup_operator_orders port keys)
      ≡ (if is_key keys key then some (status_in (port.orders_by_key (unique keys)) key) else none)
unfolding lookup_operator_orders
lookup_operator_orders-status_in port keys key =
    lookup_unique-returned port (unique keys) key
    ∙ ap (λ b. if b then some (status_in (port.orders_by_key (unique keys)) key) else none)
        (unique_keeps keys key)

-- No result is of the key.
abbrev pub IsLeftOut : ℕ → List OperatorOrderLookup → Type 0
IsLeftOut key = AllOf (λ (r : OperatorOrderLookup). r.idempotency_key ≢ key)

returned-none :
    (key : ℕ) (results : List OperatorOrderLookup)
    → IsLeftOut key results
    → returned key results ≡ none
returned-none key [] out = refl
returned-none key (r ∷ rs) (own, out) = elim (Bool-cases (r.idempotency_key == key)) [
  | inl t ↦ absurd (own (ground arith))
  | inr n ↦ rw (returned-none key rs out, n) refl
]

returned-last :
    (key : ℕ) (before after : List OperatorOrderLookup) (said : LookupStatus)
    → IsLeftOut key after
    → returned key (before ++ (record { idempotency_key = key; status = said } ∷ after)) ≡ some said
returned-last key [] after said out = rw (returned-none key after out, ==_refl key) refl
returned-last key (r ∷ rs) after said out = rw (returned-last key rs after said out) refl

-- The lookup stands for what the operator said: the last result of the key, or a failure if there is
-- none, or if the operator threw.
abbrev pub IsAnswered : Answer (List OperatorOrderLookup) → ℕ → Option LookupStatus → Type 0
IsAnswered (Answer.thrown message) key status = status ≡ some (LookupStatus.failed (reason message))
IsAnswered (Answer.answer results) key status =
    ((before after : List OperatorOrderLookup) (said : LookupStatus)
      → results ≡ before ++ (record { idempotency_key = key; status = said } ∷ after)
      → IsLeftOut key after
      → status ≡ some said)
    × (IsLeftOut key results → status ≡ some (LookupStatus.failed incomplete_answer))

status_in-IsAnswered :
    (a : Answer (List OperatorOrderLookup)) (key : ℕ) → IsAnswered a key (some (status_in a key))
status_in-IsAnswered (Answer.thrown message) key = refl
status_in-IsAnswered (Answer.answer results) key = (
  λ before after said e out. rw (e, returned-last key before after said out) refl,
  λ out. rw (returned-none key results out) refl,
)

-- Of the keys that are asked for, and of these only, each has one answer: the operator's last one
-- for it, or a failed lookup if the operator left the key out or did not answer at all.
pub lookup_operator_orders-returned :
    (port : OperatorPort) (keys : List ℕ) (key : ℕ)
    → (is_key keys key ≡ true
        → IsAnswered
            (port.orders_by_key (unique keys))
            key
            (returned key (lookup_operator_orders port keys)))
      × (is_key keys key ≡ false → returned key (lookup_operator_orders port keys) ≡ none)
lookup_operator_orders-returned port keys key =
    let whole = lookup_operator_orders-status_in port keys key in
    (
      λ asked.
          subst (IsAnswered (port.orders_by_key (unique keys)) key) (sym (whole ∙ rw asked refl))
            (status_in-IsAnswered (port.orders_by_key (unique keys)) key),
      λ n. whole ∙ rw n refl,
    )

-- An answer that is there does not say that the lookup failed.
abbrev pub Unanswered : Option LookupStatus → Type 0
Unanswered none = Unit {0}
Unanswered (some (LookupStatus.failed why)) = Unit {0}
Unanswered (some _) = ⊥

resolve_answered-Unanswered :
    (env : ReconciliationEnv) (now : ℕ) (o : Order) (status : Option LookupStatus)
    → Unanswered status
    → (s : OrderStore) → resolve_answered env now o status s ≡ pure {A = Resolved} ([], []) s
resolve_answered-Unanswered env now o none h s = refl
resolve_answered-Unanswered env now o (some (LookupStatus.failed why)) h s = refl
resolve_answered-Unanswered env now o (some LookupStatus.not_found) h s = absurd h
resolve_answered-Unanswered env now o (some (LookupStatus.found op)) h s = absurd h

-- A first part that answers and changes nothing.
bind_still :
    {A B : Type 0} (m : Call A) (f : A → Call B) (s : OrderStore) {a : A}
    → m s ≡ (ok a, s)
    → (m >>= f) s ≡ f a s
bind_still m f s h = ground arith

module _ (env : ReconciliationEnv) (now : ℕ) (lookups : List OperatorOrderLookup)
    (silent : (key : ℕ) → Unanswered (returned key lookups)) where
  resolve_row-silent :
      (o : Order) (s : OrderStore)
      → resolve_row env now lookups o s ≡ pure {A = Resolved} ([], []) s
  resolve_row-silent o s =
      elim (Bool-cases
        (status_eq o.status OrderStatus.unknown || status_eq o.status OrderStatus.accepted)) [
          | inl t ↦ rw t (
              resolve_answered-Unanswered env now o (returned o.idempotency_key lookups)
                (silent o.idempotency_key) s)
          | inr n ↦ rw n refl
        ]

  resolve_rows-silent :
      (rows : List Order) (s : OrderStore) → resolve_rows env now lookups rows s ≡ (ok ([], []), s)
  resolve_rows-silent [] s = refl
  resolve_rows-silent (o ∷ os) s =
      bind_still (resolve_row env now lookups o)
        (λ first. resolve_rows env now lookups os >>= λ rest.
          pure {A = Resolved} (first.0 ++ rest.0, first.1 ++ rest.1))
        s (resolve_row-silent o s)
      ∙ bind_still (resolve_rows env now lookups os)
          (λ rest. pure {A = Resolved} ([] ++ rest.0, [] ++ rest.1)) s (resolve_rows-silent os s)

abbrev thrown_status : Bool → Text → Option LookupStatus
thrown_status b message = if b then some (LookupStatus.failed (reason message)) else none

thrown-Unanswered : (b : Bool) (message : Text) → Unanswered (thrown_status b message)
thrown-Unanswered true message = tt
thrown-Unanswered false message = tt

pub thrown-silent :
    (port : OperatorPort) (message : Text) (keys : List ℕ) (key : ℕ)
    → ((keys : List ℕ) → port.orders_by_key keys ≡ Answer.thrown message)
    → Unanswered (returned key (lookup_operator_orders port keys))
thrown-silent port message keys key throws =
    subst Unanswered
      (sym (
        lookup_operator_orders-status_in port keys key
        ∙ ap (λ a. if is_key keys key then some (status_in a key) else none)
            (throws (unique keys))))
      (thrown-Unanswered (is_key keys key) message)

-- While the operator's lookup throws, no order is resolved and none is settled: the tables stay as
-- they are.
pub resolve_rows_thrown :
    (env : ReconciliationEnv) (now : ℕ) (port : OperatorPort) (message : Text) (rows : List Order)
    (s : OrderStore)
    → ((keys : List ℕ) → port.orders_by_key keys ≡ Answer.thrown message)
    → resolve_rows env now (lookup_operator_orders port (keys_of rows)) rows s ≡ (ok ([], []), s)
resolve_rows_thrown env now port message rows s throws =
    resolve_rows-silent env now (lookup_operator_orders port (keys_of rows))
      (λ key. thrown-silent port message (keys_of rows) key throws) rows s
