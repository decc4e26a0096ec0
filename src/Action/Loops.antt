-- ===== src/Action/Loops.antt =====
-- What threads return when they succeed, and what a loop of them returns.
use mathlib.Core.List.{map, map-append}
use gardener_extension_provi.Common.{
  ℕ, ◌+◌, ◌≡◌, refl, ap, ◌∙◌, List, [], ◌∷◌, ◌++◌, length, flatten,
}
use gardener_extension_provi.Failure.{Error, Result, ok, err}
use gardener_extension_provi.Action.{
  done, Exec, call, ◌>>=◌, or_wrap, on_error, attempt, pure, for_each,
}
use gardener_extension_provi.Action.Ensures.{
  Ensures, returns, Anything, Ensures-bind, Ensures-and_then, Ensures-call, Ensures-weaken,
}

-- what is claimed of a result that is no error
abbrev pub Succeeds : {A : Type 0} → (A → Type 0) → Result A → Type 0
Succeeds Q (ok a) = Q a
Succeeds Q (err e) = Unit

-- a list made from another, element by element, with the position
abbrev pub Each : {A B : Type 0} → (ℕ → A → B → Type 0) → ℕ → List A → List B → Type 0
Each R i [] [] = Unit
Each R i (a ∷ xs) (b ∷ ys) = R i a b × Each R (i + 1) xs ys
Each R i _ _ = ⊥

pub Each-length :
    {A B : Type 0} (R : ℕ → A → B → Type 0) (i : ℕ) (xs : List A) (ys : List B)
    → Each R i xs ys
    → length ys ≡ length xs
Each-length R i [] [] h = refl
Each-length R i [] (b ∷ ys) h = absurd h
Each-length R i (a ∷ xs) [] h = absurd h
Each-length R i (a ∷ xs) (b ∷ ys) (r, h) = rw (Each-length R (i + 1) xs ys h)

-- what each element has of its own implies what is asked of it
pub Each-map :
    {A B : Type 0} {R S : ℕ → A → B → Type 0}
    → ((i : ℕ) (x : A) (y : B) → R i x y → S i x y)
    → (i : ℕ) (xs : List A) (ys : List B) → Each R i xs ys
    → Each S i xs ys
Each-map h i [] [] r = tt
Each-map h i [] (y ∷ ys) r = r
Each-map h i (x ∷ xs) [] r = r
Each-map h i (x ∷ xs) (y ∷ ys) (r, rs) = (h i x y r, Each-map h (i + 1) xs ys rs)

on_error-Succeeds :
    {A : Type 0} (Q : A → Type 0) (f : Error → Error) (r : Result A)
    → Succeeds Q r
    → Succeeds Q (on_error f r)
on_error-Succeeds Q f (ok a) q = q
on_error-Succeeds Q f (err e) q = tt

-- lists made from the same one agree in what their elements have of it
pub Each-agree :
    {A B C D : Type 0} (R : ℕ → A → B → Type 0) (S : ℕ → A → C → Type 0) (f : B → D) (g : C → D)
    → ((i : ℕ) (x : A) (y : B) (z : C) → R i x y → S i x z → f y ≡ g z)
    → (i : ℕ) (xs : List A) (ys : List B) (zs : List C) → Each R i xs ys
    → Each S i xs zs
    → map f ys ≡ map g zs
Each-agree R S f g h i [] [] [] r s = refl
Each-agree R S f g h i [] (y ∷ ys) zs r s = absurd r
Each-agree R S f g h i [] [] (z ∷ zs) r s = absurd s
Each-agree R S f g h i (x ∷ xs) [] zs r s = absurd r
Each-agree R S f g h i (x ∷ xs) (y ∷ ys) [] r s = absurd s
Each-agree R S f g h i (x ∷ xs) (y ∷ ys) (z ∷ zs) (r, rs) (s, ss) =
    rw (h i x y z r s, Each-agree R S f g h (i + 1) xs ys zs rs ss)

pub map-flatten :
    {A B : Type 0} (f : A → B) (groups : List (List A))
    → map f (flatten groups) ≡ flatten (map (map f) groups)
map-flatten f [] = refl
map-flatten f (g ∷ groups) =
    map-append f g (flatten groups) ∙ ap (λ l. map f g ++ l) (map-flatten f groups)

module _ {W : Type 0} {P : W → Type 0} where
  pub Succeeds-pure : {A : Type 0} {Q : A → Type 0} (a : A) → Q a → Ensures P (Succeeds Q) (pure a)
  unfolding pure
  Succeeds-pure a q = returns q

  pub Succeeds-done :
      {A : Type 0} {Q : A → Type 0} (r : Result A)
      → ((a : A) → r ≡ ok a → Q a)
      → Ensures P (Succeeds Q) (done r)
  Succeeds-done (ok a) h = returns (h a refl)
  Succeeds-done (err e) h = returns tt

  pub Succeeds-weaken :
      {A : Type 0} {Q R : A → Type 0} {m : Exec W A}
      → ((a : A) → Q a → R a)
      → Ensures P (Succeeds Q) m
      → Ensures P (Succeeds R) m
  Succeeds-weaken {Q = Q} {R} h k = Ensures-weaken (weaker h) k
    where
      weaker :
          {A : Type 0} {Q R : A → Type 0}
          → ((a : A) → Q a → R a)
          → (r : Result A) → Succeeds Q r
          → Succeeds R r
      weaker h (ok a) q = h a q
      weaker h (err e) q = tt

  pub Succeeds-bind :
      {A B : Type 0} {Q : A → Type 0} {R : B → Type 0} (m : Exec W A) (f : A → Exec W B)
      → Ensures P (Succeeds Q) m
      → ((a : A) → Q a → Ensures P (Succeeds R) (f a))
      → Ensures P (Succeeds R) (m >>= f)
  Succeeds-bind m f k h = Ensures-bind m f k h (λ e u. tt)

  pub Succeeds-or_wrap :
      {A : Type 0} {Q : A → Type 0} (f : Error → Error) (m : Exec W A)
      → Ensures P (Succeeds Q) m
      → Ensures P (Succeeds Q) (or_wrap f m)
  unfolding or_wrap
  Succeeds-or_wrap {Q = Q} f m k =
      Ensures-and_then m (λ r. done (on_error f r)) k (λ r q. returns (on_error-Succeeds Q f r q))

  -- a call that changes nothing
  pub Succeeds-read :
      {A : Type 0} {Q : A → Type 0} (read : W → Result A)
      → ((w : W) → P w → Succeeds Q (read w))
      → Ensures P (Succeeds Q) (call (λ w. (read w, w)))
  Succeeds-read read h = Ensures-call (λ w. (read w, w)) (λ w p. (p, h w p))

  -- a call that changes nothing, of whose answer nothing is claimed
  pub Succeeds-read_any :
      {A : Type 0} (read : W → Result A)
      → Ensures P (Succeeds {A = A} Anything) (call (λ w. (read w, w)))
  Succeeds-read_any read = Succeeds-read read (λ w p. any_result (read w))
    where
      any_result : {A : Type 0} (r : Result A) → Succeeds {A = A} Anything r
      any_result (ok a) = tt
      any_result (err e) = tt

  -- a call that changes nothing, and whose error is looked at
  pub Succeeds-attempt_read :
      {A : Type 0} (Q : Result A → Type 0) (read : W → Result A)
      → ((w : W) → P w → Q (read w))
      → Ensures P (Succeeds Q) (attempt (call (λ w. (read w, w))))
  unfolding attempt
  Succeeds-attempt_read Q read h =
      Ensures-and_then (call (λ w. (read w, w))) (λ r. done (ok r))
        (Ensures-call {Q = Q} (λ w. (read w, w)) (λ w p. (p, h w p))) (λ r q. returns q)

  module _ {A B : Type 0} {R : ℕ → A → B → Type 0} (f : ℕ → A → Exec W B) where
    pub Succeeds-for_each :
        ((i : ℕ) (a : A) → Ensures P (Succeeds (R i a)) (f i a))
        → (i : ℕ) (xs : List A) → Ensures P (Succeeds (Each R i xs)) (for_each f i xs)
    unfolding for_each
    Succeeds-for_each h i [] = Succeeds-pure [] tt
    Succeeds-for_each h i (a ∷ xs) = Succeeds-bind (f i a) _ (h i a) λ b r.
        Succeeds-bind (for_each f (i + 1) xs) _ (Succeeds-for_each h (i + 1) xs)
          λ ys rs. Succeeds-pure (b ∷ ys) (r, rs)
