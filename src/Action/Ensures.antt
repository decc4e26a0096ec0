-- ===== src/Action/Ensures.antt =====
-- Rely and guarantee: what a thread keeps with each of its calls, and what it returns, among threads that keep the same.
use gardener_extension_provi.Failure.{Error, Result, ok, err}
use gardener_extension_provi.Action.{
  Action, done, step, Exec, run, and_then, call, go_on, ◌>>=◌, or_wrap, on_error, pure,
}

-- Each call keeps `P`, whatever other threads did since the last one as long as `P` holds; the result satisfies `Q`.
pub data Ensures {W A : Type 0} (P : W → Type 0) (Q : A → Type 0) : Action W A → Type 0 where
  returns : {a : A} → Q a → Ensures P Q (done a)
  calls :
      {act : W → W} {next : W → Action W A}
      → ((w : W) → P w → P (act w))
      → ((w : W) → P w → Ensures P Q (next w))
      → Ensures P Q (step act next)

-- nothing is claimed of the result
abbrev pub Anything : {A : Type 0} → A → Type 0
Anything a = Unit

abbrev pub Keeps : {W A : Type 0} → (W → Type 0) → Action W A → Type 0
Keeps P = Ensures P Anything

module _ {W A : Type 0} {P : W → Type 0} {Q : A → Type 0} where
  pub Ensures-run : (m : Action W A) (w : W) → Ensures P Q m → P w → P (run m w).1 × Q (run m w).0
  unfolding run
  Ensures-run (done a) w (returns q) p = (p, q)
  Ensures-run (step act next) w (calls k h) p = Ensures-run (next w) (act w) (h w p) (k w p)

  pub Ensures-weaken :
      {R : A → Type 0} {m : Action W A} → ((a : A) → Q a → R a) → Ensures P Q m → Ensures P R m
  Ensures-weaken h (returns {a} q) = returns (h a q)
  Ensures-weaken h (calls k r) = calls k (λ w p. Ensures-weaken h (r w p))

  pub Ensures-call :
      (m : W → A × W) → ((w : W) → P w → P (m w).1 × Q (m w).0) → Ensures P Q (call m)
  unfolding call
  Ensures-call m h = calls (λ w p. (h w p).0) (λ w p. returns (h w p).1)

  pub Ensures-and_then :
      {B : Type 0} {R : B → Type 0} (m : Action W A) (f : A → Action W B)
      → Ensures P Q m
      → ((a : A) → Q a → Ensures P R (f a))
      → Ensures P R (and_then m f)
  unfolding and_then
  Ensures-and_then (done a) f (returns q) h = h a q
  Ensures-and_then (step act next) f (calls k r) h =
      calls k (λ w p. Ensures-and_then (next w) f (r w p) h)

module _ {W A B : Type 0} {P : W → Type 0} (Q : Result A → Type 0) (R : Result B → Type 0) where
  Ensures-go_on :
      (f : A → Exec W B) (r : Result A)
      → Q r
      → ((a : A) → Q (ok a) → Ensures P R (f a))
      → ((e : Error) → Q (err e) → R (err e))
      → Ensures P R (go_on f r)
  Ensures-go_on f (ok a) q h g = h a q
  Ensures-go_on f (err e) q h g = returns (g e q)

module _ {W A B : Type 0} {P : W → Type 0} {Q : Result A → Type 0} {R : Result B → Type 0} where
  pub Ensures-bind :
      (m : Exec W A) (f : A → Exec W B)
      → Ensures P Q m
      → ((a : A) → Q (ok a) → Ensures P R (f a))
      → ((e : Error) → Q (err e) → R (err e))
      → Ensures P R (m >>= f)
  unfolding ◌>>=◌
  Ensures-bind m f k h g = Ensures-and_then m (go_on f) k (λ r q. Ensures-go_on Q R f r q h g)

module _ {W A B : Type 0} {P : W → Type 0} where
  pub Keeps-and_then :
      (m : Action W A) (f : A → Action W B)
      → Keeps P m
      → ((a : A) → Keeps P (f a))
      → Keeps P (and_then m f)
  Keeps-and_then m f k h = Ensures-and_then m f k (λ a u. h a)

  pub Keeps-bind :
      (m : Exec W A) (f : A → Exec W B) → Keeps P m → ((a : A) → Keeps P (f a)) → Keeps P (m >>= f)
  Keeps-bind m f k h = Ensures-bind m f k (λ a u. h a) (λ e u. tt)

module _ {W A : Type 0} {P : W → Type 0} where
  pub Keeps-done : (a : A) → Keeps P (done a)
  Keeps-done a = returns tt

  pub Keeps-pure : (a : A) → Keeps P (pure a)
  unfolding pure
  Keeps-pure a = returns tt

  pub Keeps-or_wrap : (f : Error → Error) (m : Exec W A) → Keeps P m → Keeps P (or_wrap f m)
  unfolding or_wrap
  Keeps-or_wrap f m k = Keeps-and_then m (λ r. done (on_error f r)) k (λ r. returns tt)

  pub Keeps-call : (m : W → A × W) → ((w : W) → P w → P (m w).1) → Keeps P (call m)
  Keeps-call m h = Ensures-call m (λ w p. (h w p, tt))

pub ruleset keeps_rules =
    (Keeps-and_then, Keeps-bind, Keeps-done, Keeps-pure, Keeps-or_wrap, Keeps-call)
