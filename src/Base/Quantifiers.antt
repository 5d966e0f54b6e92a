-- ===== src/Base/Quantifiers.antt =====
-- "All" and "any" of a list, as types.
use mathlib.Core.Path.{◌≡◌}
use mathlib.Core.Logic.{◌⊎◌, inl, inr}
use mathlib.Core.Bool.{Bool, true}
use mathlib.Core.List.{List, [], ◌∷◌}
use native.Mathlib.Omega.{arith}
use api_score.Base.Tests.{Bool-cases}
use api_score.Base.Rows.{exists_where}

abbrev pub AllOf {ℓ κ} : {A : Type ℓ} → (A → Type κ) → List A → Type κ
AllOf P [] = Unit
AllOf P (x ∷ xs) = P x × AllOf P xs

abbrev pub AnyOf : {A : Type 0} → (A → Type 0) → List A → Type 0
AnyOf P [] = ⊥
AnyOf P (x ∷ xs) = P x ⊎ AnyOf P xs

module _ {A : Type 0} {P Q : A → Type 0} where
  pub AllOf-map : (xs : List A) → ((x : A) → P x → Q x) → AllOf P xs → AllOf Q xs
  AllOf-map [] f h = tt
  AllOf-map (x ∷ xs) f h = (f x h.0, AllOf-map xs f h.1)

  pub AnyOf-map : (xs : List A) → ((x : A) → P x → Q x) → AnyOf P xs → AnyOf Q xs
  AnyOf-map [] f h = absurd h
  AnyOf-map (x ∷ xs) f (inl p) = inl (f x p)
  AnyOf-map (x ∷ xs) f (inr r) = inr (AnyOf-map xs f r)

module _ {A : Type 0} where
  -- A test that some row meets, and a selection that comes out empty, as types.
  pub exists_where→AnyOf :
      (p : A → Bool) (xs : List A) → exists_where p xs ≡ true → AnyOf (λ x. p x ≡ true) xs
  exists_where→AnyOf p [] h = cc
  exists_where→AnyOf p (x ∷ xs) h = elim (Bool-cases (p x)) [
    | inl t ↦ inl t
    | inr f ↦ inr (exists_where→AnyOf p xs (rw f at h))
  ]

  pub AnyOf→exists_where :
      (p : A → Bool) (xs : List A) → AnyOf (λ x. p x ≡ true) xs → exists_where p xs ≡ true
  AnyOf→exists_where p [] h = absurd h
  AnyOf→exists_where p (x ∷ xs) (inl t) = rw t
  AnyOf→exists_where p (x ∷ xs) (inr r) = ground (arith, AnyOf→exists_where p xs r)
