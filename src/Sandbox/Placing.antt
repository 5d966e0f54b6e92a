-- ===== src/Sandbox/Placing.antt =====
-- What an order placed in the sandbox does to its book and to its balances.
use api_score.Base.{
  ℕ, ◌+◌, ◌≡◌, refl, ap, ◌∙◌, false, inl, inr, Option, none, some, List, [], ◌∷◌, ◌++◌, arith, ◌==◌,
  if◌then◌else◌, Bool-cases,
}
use api_score.Base.Int.{ℤ, pos, ◌+ℤ◌, neg}
use api_score.Base.Rows.{update_where, exists_where}
use api_score.Base.Tx.{Result, ok, err, Failure}
use api_score.Money.{to_cents}
use api_score.Operator.{OperatorOrder, PlaceOrderRequest, PlaceOrderResult}
use api_score.Sandbox.Defs.{
  Sandbox, SandboxEnv, SandboxScenario, BookRow, BalanceRow, find_booked, shifted, shift_balances,
  set_count, place_calls_for,
}
use api_score.Sandbox.Place.{
  set_booked, booked, booked_order, placed_with, hidden_once, with_hash, play, play_next,
  place_known, place_order, accepted_of, malformed_of,
}

-- What the operator holds in a currency: available, or at stake.
abbrev pub total_in : ℕ → List BalanceRow → ℤ
total_in c [] = pos 0
total_in c (r ∷ rows) =
    if r.currency == c then (r.available +ℤ r.exposure) +ℤ total_in c rows else total_in c rows

moved_sum : (a e k : ℤ) → (a +ℤ neg k) +ℤ (e +ℤ k) ≡ a +ℤ e
unfolding ◌+ℤ◌ neg
moved_sum a e k = ground arith

total_in-update :
    (c currency : ℕ) (k : ℤ) (rows : List BalanceRow)
    → total_in c (update_where (λ r. r.currency == currency) (shifted (neg k) k) rows)
      ≡ total_in c rows
total_in-update c currency k [] = refl
total_in-update c currency k (r ∷ rows) =
    ground (arith, moved_sum r.available r.exposure k, total_in-update c currency k rows)

total_in-empty :
    (c currency : ℕ) (rows : List BalanceRow)
    → total_in c
        (rows ++ (record { currency = currency; available = pos 0; exposure = pos 0 } ∷ []))
      ≡ total_in c rows
unfolding ◌+ℤ◌
total_in-empty c currency [] = ground arith
total_in-empty c currency (r ∷ rows) = ground (arith, total_in-empty c currency rows)

total_in-shift :
    (c currency : ℕ) (k : ℤ) (rows : List BalanceRow)
    → total_in c (shift_balances currency (neg k) k rows) ≡ total_in c rows
total_in-shift c currency k rows =
    elim (Bool-cases (exists_where (λ (r : BalanceRow). r.currency == currency) rows)) [
      | inl t ↦ rw t (total_in-update c currency k rows)
      | inr n ↦ rw n (
          total_in-update c currency k
            (rows ++ (record { currency = currency; available = pos 0; exposure = pos 0 } ∷ []))
          ∙ total_in-empty c currency rows)
    ]

-- An order in the book stays as it is.
abbrev pub KeepsBook : List BookRow → List BookRow → Type 0
KeepsBook rows rows' =
    (key : ℕ) (row : BookRow) → find_booked key rows ≡ some row → find_booked key rows' ≡ some row

append-KeepsBook : (rows : List BookRow) (new : BookRow) → KeepsBook rows (rows ++ (new ∷ []))
append-KeepsBook [] new key row h = cc
append-KeepsBook (r ∷ rows) new key row h = elim (Bool-cases (r.key == key)) [
  | inl t ↦ rw t (rw t at h)
  | inr n ↦ rw n (append-KeepsBook rows new key row (rw n at h))
]

not_there :
    (key : ℕ) (rows : List BookRow)
    → find_booked key rows ≡ none
    → exists_where (λ (r : BookRow). r.key == key) rows ≡ false
not_there key [] h = refl
not_there key (r ∷ rows) h = elim (Bool-cases (r.key == key)) [
  | inl t ↦ absurd (ground arith)
  | inr n ↦ rw n (not_there key rows (rw n at h))
]

-- An order under a key that is not in the book leaves the others as they are.
set_booked-KeepsBook :
    (key : ℕ) (o : OperatorOrder) (rows : List BookRow)
    → find_booked key rows ≡ none
    → KeepsBook rows (set_booked key o rows)
set_booked-KeepsBook key o rows fresh =
    rw (not_there key rows fresh) (append-KeepsBook rows (record { key = key; order = o }))

-- The book keeps its orders, and what the operator holds in a currency is the same.
pub record IsConserving (s s' : Sandbox) : Type 0 where
  pub book : KeepsBook s.book s'.book
  pub total : (c : ℕ) → total_in c s'.balances ≡ total_in c s.balances

module _ (env : SandboxEnv) (i : PlaceOrderRequest) where
  booked-IsConserving :
      (r : Result ℤ) (s : Sandbox)
      → IsConserving s (booked env i r s).1 × ((booked env i r s).1.book ≡ s.book)
  booked-IsConserving (err e) s = (record { book = λ key row h. h; total = λ c. refl }, refl)
  booked-IsConserving (ok k) s = (
    record { book = λ key row h. h; total = λ c. total_in-shift c i.currency k s.balances },
    refl,
  )

  booked_order-IsConserving :
      (s : Sandbox)
      → IsConserving s (booked_order env i s).1 × ((booked_order env i s).1.book ≡ s.book)
  unfolding booked_order
  booked_order-IsConserving s =
      let (m, same) =
        booked-IsConserving (to_cents i.stake) (record s { sequence = s.sequence + 1 }) in
      (record { book = m.book; total = m.total }, same)

  placed_with-IsConserving :
      (key : ℕ) (f : OperatorOrder → OperatorOrder)
      (answer : OperatorOrder → Result PlaceOrderResult) (s : Sandbox) (r : Result OperatorOrder)
      (t : Sandbox)
      → IsConserving s t
      → find_booked key t.book ≡ none
      → IsConserving s (placed_with key f answer (r, t)).1
  placed_with-IsConserving key f answer s (err e) t m fresh = m
  placed_with-IsConserving key f answer s (ok o) t m fresh = record {
    book = λ k row h. set_booked-KeepsBook key (f o) t.book fresh k row (m.book k row h);
    total = m.total;
  }

  hidden_once-IsConserving :
      (key : ℕ) (s : Sandbox) (r : Result PlaceOrderResult) (t : Sandbox)
      → IsConserving s t
      → IsConserving s (hidden_once key (r, t)).1
  hidden_once-IsConserving key s (err e) t m = m
  hidden_once-IsConserving key s (ok r) t m = record { book = m.book; total = m.total }

  new-IsConserving :
      (f : OperatorOrder → OperatorOrder) (answer : OperatorOrder → Result PlaceOrderResult)
      (s : Sandbox)
      → find_booked i.idempotency_key s.book ≡ none
      → IsConserving s (placed_with i.idempotency_key f answer (booked_order env i s)).1
  new-IsConserving f answer s fresh =
      let (m, same) = booked_order-IsConserving s in
      placed_with-IsConserving i.idempotency_key f answer s (booked_order env i s).0
        (booked_order env i s).1 m (ap (find_booked i.idempotency_key) same ∙ fresh)

  play-IsConserving :
      (x : SandboxScenario) (s : Sandbox)
      → find_booked i.idempotency_key s.book ≡ none
      → IsConserving s (play env i x s).1
  play-IsConserving SandboxScenario.reject s fresh = record {
    book = λ key row h. h;
    total = λ c. refl;
  }
  play-IsConserving SandboxScenario.odd_moved s fresh = record {
    book = λ key row h. h;
    total = λ c. refl;
  }
  play-IsConserving SandboxScenario.timeout_before_accept s fresh = record {
    book = λ key row h. h;
    total = λ c. refl;
  }
  play-IsConserving SandboxScenario.timeout_after_accept s fresh =
      new-IsConserving (λ o. o) (λ o. err Failure.other) s fresh
  play-IsConserving SandboxScenario.delayed s fresh =
      hidden_once-IsConserving i.idempotency_key s
        (placed_with i.idempotency_key (λ o. o) (λ o. ok PlaceOrderResult.unknown)
          (booked_order env i s)).0
        (placed_with i.idempotency_key (λ o. o) (λ o. ok PlaceOrderResult.unknown)
          (booked_order env i s)).1
        (new-IsConserving (λ o. o) (λ o. ok PlaceOrderResult.unknown) s fresh)
  play-IsConserving SandboxScenario.malformed s fresh =
      new-IsConserving (λ o. o) (λ o. ok (malformed_of o)) s fresh
  play-IsConserving SandboxScenario.duplicate_receipt s fresh =
      new-IsConserving (with_hash s.last_receipt_hash) (λ o. ok (accepted_of o)) s fresh
  play-IsConserving SandboxScenario.accept s fresh =
      new-IsConserving (λ o. o) (λ o. ok (accepted_of o)) s fresh

  play_next-IsConserving :
      (q : List SandboxScenario) (s : Sandbox)
      → find_booked i.idempotency_key s.book ≡ none
      → IsConserving s (play_next env i q s).1
  play_next-IsConserving [] s fresh = play-IsConserving SandboxScenario.accept s fresh
  play_next-IsConserving (x ∷ rest) s fresh =
      let m = play-IsConserving x (record s { queue = rest }) fresh in
      record { book = m.book; total = m.total }

  place_known-IsConserving :
      (o : Option BookRow) (s : Sandbox)
      → find_booked i.idempotency_key s.book ≡ o
      → IsConserving s (place_known env i o s).1
  place_known-IsConserving (some row) s there = record { book = λ key row h. h; total = λ c. refl }
  place_known-IsConserving none s fresh = play_next-IsConserving s.queue s fresh

-- Whatever scenario is played, placing an order in the sandbox leaves every order of the book as it
-- was, under its key, and moves money of a currency only between available and at stake.
pub place_order-IsConserving :
    (env : SandboxEnv) (i : PlaceOrderRequest) (s : Sandbox)
    → IsConserving s (place_order env i s).1
unfolding place_order
place_order-IsConserving env i s =
    let m =
      place_known-IsConserving env i (find_booked i.idempotency_key s.book)
        (record s {
          place_calls =
              set_count i.idempotency_key (place_calls_for i.idempotency_key s + 1) s.place_calls;
        })
        refl in
    record { book = m.book; total = m.total }
