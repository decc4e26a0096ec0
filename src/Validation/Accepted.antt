-- ===== src/Validation/Accepted.antt =====
-- When a list of errors that a validation puts together is empty.
use gardener_extension_provi.Common.{
  ◌≡◌, refl, ◌∙◌, ap, ◌↔◌, Bool, true, false, List, [], ◌∷◌, ◌++◌, is_empty, append_eq_nil,
}
use gardener_extension_provi.Validation.{FieldError, fails_if}

pub append_nil_iff {ℓ} : {A : Type ℓ} (xs ys : List A) → ((xs ++ ys ≡ []) ↔ ((xs ≡ []) × (ys ≡ [])))
append_nil_iff xs ys = (append_eq_nil xs ys, λ h. ap (λ l. l ++ ys) h.0 ∙ h.1)

pub fails_if_iff : (b : Bool) (e : FieldError) → ((fails_if b e ≡ []) ↔ (b ≡ false))
fails_if_iff true e = (λ h. cc, λ h. cc)
fails_if_iff false e = (λ h. refl, λ h. refl)

pub is_empty_iff {ℓ} : {A : Type ℓ} (xs : List A) → ((is_empty xs ≡ true) ↔ (xs ≡ []))
is_empty_iff [] = (λ h. refl, λ h. refl)
is_empty_iff (x ∷ xs) = (λ h. cc, λ h. cc)

pub iff_trans : {A B C : Type 0} → (A ↔ B) → (B ↔ C) → (A ↔ C)
iff_trans f g = (λ a. g.0 (f.0 a), λ c. f.1 (g.1 c))

-- a conjunction, taken apart by one equivalence and described by two others
pub iff_pair : {A B C D E : Type 0} → (A ↔ (B × C)) → (B ↔ D) → (C ↔ E) → (A ↔ (D × E))
iff_pair h f g = (λ a. let (b, c) = h.0 a in (f.0 b, g.0 c), λ (d, e). h.1 (f.1 d, g.1 e))
