-- ===== src/Action.antt =====
-- Code that talks to a world `W` shared with other threads. A `step` is one atomic call: it changes the world,
-- and what it read decides how the thread goes on.
pub mod Laws
pub mod Ensures
pub mod Loops
pub mod Ends
use gardener_extension_provi.Common.{ℕ, ◌+◌, List, [], ◌∷◌}
use gardener_extension_provi.Failure.{Error, Result, ok, err}

pub data Action (W A : Type 0) : Type 0 where
  done : A → Action W A
  step : (W → W) → (W → Action W A) → Action W A

module _ {W A : Type 0} where
  -- the thread runs to its end with no other in between
  unfoldable pub run : Action W A → W → A × W
  run (done a) w = (a, w)
  run (step act next) w = run (next w) (act w)

  unfoldable pub call : (W → A × W) → Action W A
  call m = step (λ w. (m w).1) (λ w. done (m w).0)

module _ {W A B : Type 0} where
  unfoldable pub and_then : Action W A → (A → Action W B) → Action W B
  and_then (done a) f = f a
  and_then (step act next) f = step act (λ w. and_then (next w) f)

abbrev pub Exec : Type 0 → Type 0 → Type 0
Exec W A = Action W (Result A)

module _ {W A B : Type 0} where
  abbrev pub go_on : (A → Exec W B) → Result A → Exec W B
  go_on f (ok a) = f a
  go_on f (err e) = done (err e)

  infixl 5 ◌>>=◌ ◌>>◌
  -- `if err != nil { return err }`
  unfoldable pub ◌>>=◌ : Exec W A → (A → Exec W B) → Exec W B
  unfolding and_then
  m >>= f = and_then m (go_on f)

  abbrev pub ◌>>◌ : Exec W A → Exec W B → Exec W B
  m >> n = m >>= λ _. n

abbrev pub on_error : {A : Type 0} → (Error → Error) → Result A → Result A
on_error f (ok a) = ok a
on_error f (err e) = err (f e)

module _ {W A : Type 0} where
  unfoldable pub pure : A → Exec W A
  pure a = done (ok a)

  unfoldable pub fail : Error → Exec W A
  fail e = done (err e)

  -- `if err != nil { return fmt.Errorf(…, err) }`
  unfoldable pub or_wrap : (Error → Error) → Exec W A → Exec W A
  unfolding and_then
  or_wrap f m = and_then m (λ r. done (on_error f r))

  -- the error is looked at, and not returned
  unfoldable pub attempt : Exec W A → Exec W (Result A)
  unfolding and_then
  attempt m = and_then m (λ r. done (ok r))

module _ {W A B : Type 0} where
  -- `for i, a := range list { b, err := f(i, a); …; out = append(out, b) }`, from the i-th element on
  unfoldable pub for_each : (ℕ → A → Exec W B) → ℕ → List A → Exec W (List B)
  unfolding ◌>>=◌ pure
  for_each f i [] = pure []
  for_each f i (a ∷ rest) = do b ← f i a; later ← for_each f (i + 1) rest; pure (b ∷ later)
