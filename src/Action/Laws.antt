-- ===== src/Action/Laws.antt =====
-- Running a composed thread.
use gardener_extension_provi.Common.{◌≡◌, refl, sym, ap, ◌∙◌}
use gardener_extension_provi.Failure.{ok, err, Error, Result}
use gardener_extension_provi.Action.{
  Action, done, step, run, call, and_then, Exec, go_on, ◌>>=◌, or_wrap, attempt, on_error,
}

module _ {W A B : Type 0} where
  pub run-and_then :
      (m : Action W A) (f : A → Action W B) (w : W)
      → run (and_then m f) w ≡ run (f (run m w).0) (run m w).1
  unfolding run and_then
  run-and_then (done a) f w = refl
  run-and_then (step act next) f w = run-and_then (next w) f (act w)

module _ {W A B : Type 0} where
  pub run-bind :
      (m : Exec W A) (f : A → Exec W B) (w : W)
      → run (m >>= f) w ≡ run (go_on f (run m w).0) (run m w).1
  unfolding ◌>>=◌
  run-bind m f w = run-and_then m (go_on f) w

module _ {W A : Type 0} where
  pub run-done : (a : A) (w : W) → run (done a) w ≡ (a, w)
  unfolding run
  run-done a w = refl

  pub run-call : (m : W → A × W) (w : W) → run (call m) w ≡ m w
  unfolding run call
  run-call m w = refl

  pub run-or_wrap :
      (f : Error → Error) (m : Exec W A) (w : W)
      → run (or_wrap f m) w ≡ (on_error f (run m w).0, (run m w).1)
  unfolding or_wrap run
  run-or_wrap f m w = run-and_then m (λ r. done (on_error f r)) w

  pub run-attempt : (m : Exec W A) (w : W) → run (attempt m) w ≡ (ok (run m w).0, (run m w).1)
  unfolding attempt run
  run-attempt m w = run-and_then m (λ r. done (ok r)) w

module _ {W A B : Type 0} (m : Exec W A) (f : A → Exec W B) (w : W) where
  pub run-bind_ok : (a : A) (w' : W) → run m w ≡ (ok a, w') → run (m >>= f) w ≡ run (f a) w'
  run-bind_ok a w' h = rw run-bind (rw h)

  pub run-bind_err : (e : Error) (w' : W) → run m w ≡ (err e, w') → run (m >>= f) w ≡ (err e, w')
  unfolding run
  run-bind_err e w' h = rw run-bind (rw h)

module _ {W A B : Type 0} where
  go_on_inv :
      (f : A → Exec W B) (r : Result A) (v : W) (b : B)
      → (run (go_on f r) v).0 ≡ ok b
      → (a : A) × (r ≡ ok a) × (run (go_on f r) v ≡ run (f a) v)
  unfolding run
  go_on_inv f (ok a) v b h = (a, refl, refl)
  go_on_inv f (err e) v b h = absurd (cc (h))

  -- a thread of two parts that succeeds has succeeded in the first and gone on with the second
  pub run-bind_inv :
      (m : Exec W A) (f : A → Exec W B) (w : W) (b : B)
      → (run (m >>= f) w).0 ≡ ok b
      → (a : A) × ((run m w).0 ≡ ok a) × (run (m >>= f) w ≡ run (f a) (run m w).1)
  run-bind_inv m f w b h =
      let e = run-bind m f w in
      let (a, r, then_f) = go_on_inv f (run m w).0 (run m w).1 b (sym (ap (λ t. t.0) e) ∙ h) in
      (a, r, e ∙ then_f)
