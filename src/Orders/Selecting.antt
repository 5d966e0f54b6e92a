-- ===== src/Orders/Selecting.antt =====
-- Rows that are selected, sorted and found again by their identifiers.
use api_score.Base.{
  ℕ, ◌≡◌, refl, sym, ap, ◌∙◌, inl, inr, Bool, true, false, ◌&&◌, none, some, List, [], ◌∷◌, arith,
  Bool-cases, ◌==◌, leb, eq_of_some,
}
use mathlib.Core.Path.{subst}
use api_score.Base.Quantifiers.{AllOf}
use api_score.Base.Rows.{exists_where, select_where}
use api_score.Orders.Defs.{Order, find_order}
use api_score.Orders.Changes.{HasOwnIds}
use api_score.Orders.Abandoned.{insert_by_id, sort_by_id}

-- What holds of all rows in the order of their identifiers holds of all of them.
insert_by_id-AllOf :
    (P : Order → Type 0) (o : Order) (ps : List Order)
    → AllOf P (insert_by_id o ps)
    → P o × AllOf P ps
insert_by_id-AllOf P o [] h = h
insert_by_id-AllOf P o (p ∷ ps) h = elim (Bool-cases (leb o.id p.id)) [
  | inl t ↦ rw t at h
  | inr n ↦
      let (first, rest) = subst (AllOf P) (sorted_after n) h in
      let (own, others) = insert_by_id-AllOf P o ps rest in (own, (first, others))
]
  where
    sorted_after : leb o.id p.id ≡ false → insert_by_id o (p ∷ ps) ≡ p ∷ insert_by_id o ps
    sorted_after n = rw n refl

pub sort_by_id-AllOf : (P : Order → Type 0) (os : List Order) → AllOf P (sort_by_id os) → AllOf P os
sort_by_id-AllOf P [] h = tt
sort_by_id-AllOf P (o ∷ os) h =
    let (own, rest) = insert_by_id-AllOf P o (sort_by_id os) h in (own, sort_by_id-AllOf P os rest)

exists-insert_by_id :
    (q : Order → Bool) (o : Order) (ps : List Order)
    → exists_where q (insert_by_id o ps) ≡ true
    → exists_where q (o ∷ ps) ≡ true
exists-insert_by_id q o [] h = h
exists-insert_by_id q o (p ∷ ps) h = ground (arith, exists-insert_by_id q o ps)

pub exists-sort_by_id :
    (q : Order → Bool) (os : List Order)
    → exists_where q (sort_by_id os) ≡ true
    → exists_where q os ≡ true
exists-sort_by_id q [] h = h
exists-sort_by_id q (o ∷ os) h =
    let next = exists-insert_by_id q o (sort_by_id os) h in
    elim (Bool-cases (q o)) [
      | inl t ↦ rw t refl
      | inr n ↦ rw n (exists-sort_by_id q os (rw n at next))
    ]

pub exists-select_where :
    (q r : Order → Bool) (os : List Order)
    → exists_where q (select_where r os) ≡ true
    → exists_where (λ p. q p && r p) os ≡ true
exists-select_where q r [] h = h
exists-select_where q r (o ∷ os) h = ground (arith, exists-select_where q r os)

pub select_where-AllOf :
    (P : Order → Type 0) (r : Order → Bool) (os : List Order)
    → AllOf P (select_where r os)
    → AllOf (λ o. r o ≡ true → P o) os
select_where-AllOf P r [] h = tt
select_where-AllOf P r (o ∷ os) h = elim (Bool-cases (r o)) [
  | inl t ↦
      let both = subst (AllOf P) (taken t) h in (λ _. both.0, select_where-AllOf P r os both.1)
  | inr n ↦ (λ t. absurd (cc (sym t ∙ n)), select_where-AllOf P r os (subst (AllOf P) (passed n) h))
]
  where
    taken : r o ≡ true → select_where r (o ∷ os) ≡ o ∷ select_where r os
    taken t = rw t refl

    passed : r o ≡ false → select_where r (o ∷ os) ≡ select_where r os
    passed n = rw n refl

-- What holds of all rows holds of one that is found.
pub found-AllOf :
    (P : Order → Type 0) (id : ℕ) (os : List Order) (o : Order)
    → AllOf P os
    → find_order id os ≡ some o
    → P o
found-AllOf P id [] o h f = cc
found-AllOf P id (x ∷ os) o (own, rest) f = elim (Bool-cases (x.id == id)) [
  | inl t ↦ subst P (eq_of_some (rw t at f)) own
  | inr n ↦ found-AllOf P id os o rest (rw n at f)
]

-- A test that singles out an identifier no row has, meets no row.
not_found :
    (v : Order → Bool) (id : ℕ) (os : List Order)
    → ((p : Order) → v p ≡ true → p.id ≡ id)
    → find_order id os ≡ none
    → exists_where v os ≡ false
not_found v id [] single h = refl
not_found v id (x ∷ os) single h = elim (Bool-cases (v x)) [
  | inl t ↦ let e = single x t in absurd (ground arith)
  | inr n ↦ rw n (not_found v id os single (ground arith))
]

-- By the primary key a row that meets such a test is the one that is found.
pub found_meets :
    (v : Order → Bool) (id : ℕ) (os : List Order) (o : Order)
    → HasOwnIds os
    → ((p : Order) → v p ≡ true → p.id ≡ id)
    → find_order id os ≡ some o
    → exists_where v os ≡ true
    → v o ≡ true
found_meets v id [] o own single f h = cc
found_meets v id (x ∷ os) o (apart, own) single f h = elim (Bool-cases (x.id == id)) [
  | inl same ↦
      let e : x ≡ o = eq_of_some (rw same at f) in
      elim (Bool-cases (v x)) [
        | inl t ↦ subst (λ y. v y ≡ true) e t
        | inr n ↦
            let gone : find_order id os ≡ none =
              ap (λ j. find_order j os) (sym (same_id same)) ∙ apart in
            let missing = not_found v id os single gone in absurd (cc (sym (rw n at h) ∙ missing))
      ]
  | inr differs ↦ elim (Bool-cases (v x)) [
    | inl t ↦ let e = single x t in absurd (ground arith)
    | inr n ↦ found_meets v id os o own single (rw differs at f) (rw n at h)
  ]
]
  where
    same_id : (x.id == id) ≡ true → x.id ≡ id
    same_id t = ground arith
