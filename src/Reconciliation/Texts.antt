-- ===== src/Reconciliation/Texts.antt =====
-- Equality of texts, as the code tests it.
use api_score.Base.{◌≡◌, refl, ◌↔◌, true, Option, none, some, [], ◌∷◌, arith}
use api_score.Money.{Text}
use api_score.Control.Defs.{text_eq}
use api_score.Orders.Acceptance.{text_option_eq}

pub eq_of_text_eq : (a b : Text) → text_eq a b ≡ true → a ≡ b
eq_of_text_eq [] [] h = refl
eq_of_text_eq [] (_ ∷ _) h = cc
eq_of_text_eq (_ ∷ _) [] h = cc
eq_of_text_eq (c ∷ a) (d ∷ b) h = ground (arith, eq_of_text_eq a b)

pub text_eq_refl : (a : Text) → text_eq a a ≡ true
text_eq_refl [] = refl
text_eq_refl (c ∷ a) = ground (arith, text_eq_refl a)

pub text_option_eq_iff : (a b : Option Text) → (text_option_eq a b ≡ true) ↔ (a ≡ b)
text_option_eq_iff none none = (λ _. refl, λ _. refl)
text_option_eq_iff none (some b) = (λ h. cc, λ h. cc)
text_option_eq_iff (some a) none = (λ h. cc, λ h. cc)
text_option_eq_iff (some a) (some b) =
    (λ h. ground (arith, eq_of_text_eq a b), λ h. ground (arith, text_eq_refl a))
