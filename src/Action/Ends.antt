-- ===== src/Action/Ends.antt =====
-- Threads whose errors are of a known kind, as of none at all, and threads of which nothing is claimed but what they
-- return.
use gardener_extension_provi.Common.{String}
use gardener_extension_provi.Failure.{Error, wrap, Result, ok, err}
use gardener_extension_provi.Action.{Action, done, step, Exec, ◌>>=◌, or_wrap, on_error, pure}
use gardener_extension_provi.Action.Ensures.{
  Ensures, returns, calls, Anything, Ensures-bind, Ensures-and_then,
}
use gardener_extension_provi.Action.Loops.{Succeeds}

-- the result satisfies `Q`, or it is an error that satisfies `E`
abbrev pub Ends : {A : Type 0} → (Error → Type 0) → (A → Type 0) → Result A → Type 0
Ends E Q (ok a) = Q a
Ends E Q (err e) = E e

-- no error
abbrev pub Never : Error → Type 0
Never e = ⊥

-- an error is of the kind wherever its cause is
abbrev pub IsWrapped : (Error → Type 0) → Type 0
IsWrapped E = (text : String) (e : Error) → E e → E (wrap text e)

module _ {W : Type 0} {P : W → Type 0} {E : Error → Type 0} where
  pub Ends-pure : {A : Type 0} {Q : A → Type 0} (a : A) → Q a → Ensures P (Ends E Q) (pure a)
  unfolding pure
  Ends-pure a q = returns q

  pub Ends-bind :
      {A B : Type 0} {Q : A → Type 0} {R : B → Type 0} (m : Exec W A) (f : A → Exec W B)
      → Ensures P (Ends E Q) m
      → ((a : A) → Q a → Ensures P (Ends E R) (f a))
      → Ensures P (Ends E R) (m >>= f)
  Ends-bind m f k h = Ensures-bind m f k h (λ e u. u)

  pub Ends-or_wrap :
      {A : Type 0} {Q : A → Type 0} (f : Error → Error) (m : Exec W A)
      → ((e : Error) → E e → E (f e))
      → Ensures P (Ends E Q) m
      → Ensures P (Ends E Q) (or_wrap f m)
  unfolding or_wrap
  Ends-or_wrap {A = A} {Q = Q} f m wraps k =
      Ensures-and_then m (λ r. done (on_error f r)) k (λ r q. returns (on_error-Ends r q))
    where
      on_error-Ends : (r : Result A) → Ends E Q r → Ends E Q (on_error f r)
      on_error-Ends (ok a) q = q
      on_error-Ends (err e) q = wraps e q

  -- a result that is known
  pub Ends-done :
      {A : Type 0} {Q : A → Type 0} (r : Result A) → Ends E Q r → Ensures P (Ends E Q) (done r)
  Ends-done r q = returns q

module _ {W A : Type 0} where
  pub Ensures-Anything : (m : Action W A) → Ensures Anything Anything m
  Ensures-Anything (done a) = returns tt
  Ensures-Anything (step act next) = calls (λ w p. tt) (λ w p. Ensures-Anything (next w))

  pub Succeeds-Anything : (m : Exec W A) → Ensures Anything (Succeeds {A = A} Anything) m
  Succeeds-Anything (done (ok a)) = returns tt
  Succeeds-Anything (done (err e)) = returns tt
  Succeeds-Anything (step act next) = calls (λ w p. tt) (λ w p. Succeeds-Anything (next w))
