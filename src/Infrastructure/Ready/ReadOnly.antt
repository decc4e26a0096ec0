-- ===== src/Infrastructure/Ready/ReadOnly.antt =====
-- The waits read and do not write.
use gardener_extension_provi.Common.{String, ◌≡◌, refl}
use gardener_extension_provi.Failure.{Error, Result, ok, err}
use gardener_extension_provi.Action.{done, Exec, run, go_on, on_error, ◌>>=◌, or_wrap}
use gardener_extension_provi.Action.Laws.{run-bind, run-or_wrap}
use gardener_extension_provi.Kube.{Subnet, ObjectClient, do_get, run-get}
use gardener_extension_provi.Infrastructure.Ready.{subnet_answer, wait_for_global_subnet_ready}

module _ {W : Type 0} where
  -- a thread that leaves every world as it is
  abbrev pub ReadOnly : {A : Type 0} → Exec W A → Type 0
  ReadOnly m = (w : W) → (run m w).1 ≡ w

  -- a read whose answer is worked on
  read_and_answer :
      {A B : Type 0} (answer : A → Result B) (f : Error → Error) (r : Result A) (w : W)
      → (run (go_on (λ a. done (answer a)) (on_error f r)) w).1 ≡ w
  unfolding run
  read_and_answer answer f (ok s) w = refl
  read_and_answer answer f (err e) w = refl

  bind_get-ReadOnly :
      {A B : Type 0} (c : ObjectClient W A) (namespace name : String) (answer : A → Result B)
      (f : Error → Error)
      → ReadOnly (or_wrap f (do_get c namespace name) >>= λ a. done (answer a))
  bind_get-ReadOnly c namespace name answer f w =
      rw run-bind
        (rw run-or_wrap (rw run-get (read_and_answer answer f (c.get namespace name w) w)))

  pub wait_for_global_subnet_ready-ReadOnly :
      (name namespace : String) (c : ObjectClient W Subnet)
      → ReadOnly (wait_for_global_subnet_ready name namespace c)
  unfolding wait_for_global_subnet_ready
  wait_for_global_subnet_ready-ReadOnly name namespace c =
      bind_get-ReadOnly c namespace name (subnet_answer "global subnet") _
