-- ===== src/Gate/Dedupe.antt =====
-- `new Set(ids)` holds the same identifiers as the list.
use mathlib.Core.Path.{subst}
use api_score.Base.{ℕ, ◌⊎◌, inl, inr, List, [], ◌∷◌, arith, ◌==◌, Bool-cases}
use api_score.Base.Quantifiers.{AllOf, AnyOf}
use api_score.Gate.{remove, dedupe}

module _ (P : ℕ → Type 0) where
  AllOf-remove : (x : ℕ) (ys : List ℕ) → AllOf P ys → AllOf P (remove x ys)
  AllOf-remove x [] h = tt
  AllOf-remove x (y ∷ ys) h = elim (Bool-cases (x == y)) [
    | inl same ↦ rw same (AllOf-remove x ys h.1)
    | inr differs ↦ rw differs (h.0, AllOf-remove x ys h.1)
  ]

  remove-AllOf : (x : ℕ) (ys : List ℕ) → P x → AllOf P (remove x ys) → AllOf P ys
  remove-AllOf x [] p h = tt
  remove-AllOf x (y ∷ ys) p h = elim (Bool-cases (x == y)) [
    | inl same ↦ (subst P (ground arith) p, remove-AllOf x ys p (rw same at h))
    | inr differs ↦
        let parts : P y × AllOf P (remove x ys) = rw differs at h in
        (parts.0, remove-AllOf x ys p parts.1)
  ]

  pub dedupe-AllOf : (xs : List ℕ) → AllOf P (dedupe xs) → AllOf P xs
  dedupe-AllOf [] h = tt
  dedupe-AllOf (x ∷ xs) (p, rest) = (p, dedupe-AllOf xs (remove-AllOf x (dedupe xs) p rest))

  pub AllOf-dedupe : (xs : List ℕ) → AllOf P xs → AllOf P (dedupe xs)
  AllOf-dedupe [] h = tt
  AllOf-dedupe (x ∷ xs) (p, rest) = (p, AllOf-remove x (dedupe xs) (AllOf-dedupe xs rest))

  AnyOf-remove : (x : ℕ) (ys : List ℕ) → AnyOf P (remove x ys) → AnyOf P ys
  AnyOf-remove x [] h = absurd h
  AnyOf-remove x (y ∷ ys) h = elim (Bool-cases (x == y)) [
    | inl same ↦ inr (AnyOf-remove x ys (rw same at h))
    | inr differs ↦
        let parts : P y ⊎ AnyOf P (remove x ys) = rw differs at h in
        elim parts [ inl p ↦ inl p | inr r ↦ inr (AnyOf-remove x ys r) ]
  ]

  remove-AnyOf : (x : ℕ) (ys : List ℕ) → AnyOf P ys → P x ⊎ AnyOf P (remove x ys)
  remove-AnyOf x [] h = absurd h
  remove-AnyOf x (y ∷ ys) h = elim (Bool-cases (x == y)) [
    | inl same ↦ elim h [
      | inl p ↦ inl (subst P (ground arith) p)
      | inr r ↦ rw same (remove-AnyOf x ys r)
    ]
    | inr differs ↦ elim h [
      | inl p ↦ inr (rw differs (inl p))
      | inr r ↦ elim (remove-AnyOf x ys r) [ inl p ↦ inl p | inr q ↦ inr (rw differs (inr q)) ]
    ]
  ]

  pub dedupe-AnyOf : (xs : List ℕ) → AnyOf P (dedupe xs) → AnyOf P xs
  dedupe-AnyOf [] h = absurd h
  dedupe-AnyOf (x ∷ xs) (inl p) = inl p
  dedupe-AnyOf (x ∷ xs) (inr r) = inr (dedupe-AnyOf xs (AnyOf-remove x (dedupe xs) r))

  pub AnyOf-dedupe : (xs : List ℕ) → AnyOf P xs → AnyOf P (dedupe xs)
  AnyOf-dedupe [] h = absurd h
  AnyOf-dedupe (x ∷ xs) (inl p) = inl p
  AnyOf-dedupe (x ∷ xs) (inr r) = remove-AnyOf x (dedupe xs) (AnyOf-dedupe xs r)
