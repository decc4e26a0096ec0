-- ===== src/Bastion/Reconcile/Retried.antt =====
-- pkg/controller/bastion/actuator_reconcile.go: how a reconciliation of a bastion's objects ends, by how the API server
-- answers.
use gardener_extension_provi.Common.{String, ◌≡◌, refl, Bool, Bool-cases, inl, inr, some}
use gardener_extension_provi.Failure.{Error, requeue_delay, Result, ok, err}
use gardener_extension_provi.Action.Ensures.{
  Ensures, returns, Anything, Ensures-and_then, Ensures-call, Ensures-weaken,
}
use gardener_extension_provi.Action.Ends.{Ends, Never, IsWrapped}
use gardener_extension_provi.Kube.{ObjectClient, do_get}
use gardener_extension_provi.Apis.{CloudProfileConfig}
use gardener_extension_provi.Bastion.{Bastion, BastionProfile, BastionClient}
use gardener_extension_provi.Bastion.Reconcile.{reconcile_bastion_objects}
use gardener_extension_provi.Bastion.Objects.{
  awaited, await, wait_for_virtual_machine_ready, wait_for_virtual_machine_external_access_ready,
  wait_for_virtual_machine_disk_ready,
}
use gardener_extension_provi.Bastion.Reconcile.Endings.{Writes, WritesAll, Chooses, objects-Ends}

-- the controller comes back after half a minute
abbrev pub IsRetried : Error → Type 0
IsRetried e = requeue_delay e ≡ some 30

IsRetried-IsWrapped : IsWrapped IsRetried
unfolding requeue_delay
IsRetried-IsWrapped text e h = h

module _ {Obj : Type 0} (ready : Obj → Bool) (text : String) (waiting : Error) where
  awaited-IsRetried : (r : Result Obj) → Ends IsRetried Anything (awaited ready text waiting r)
  unfolding requeue_delay
  awaited-IsRetried (err e) = refl
  awaited-IsRetried (ok obj) = elim (Bool-cases (ready obj)) [
    | inl now ↦ rw now tt
    | inr later ↦ rw later refl
  ]

module _ {W : Type 0} {P : W → Type 0} (E : Error → Type 0) where
  Writes-weaken : {Obj : Type 0} (c : ObjectClient W Obj) → Writes P Never c → Writes P E c
  Writes-weaken c h obj change = Ensures-weaken weaker (h obj change)
    where
      weaker : {A : Type 0} (r : Result A) → Ends Never Anything r → Ends E Anything r
      weaker (ok a) u = tt
      weaker (err e) none_got = absurd none_got

  WritesAll-weaken : (c : BastionClient W) → WritesAll P Never c → WritesAll P E c
  WritesAll-weaken c h = record {
    secrets = Writes-weaken c.secrets h.secrets;
    disks = Writes-weaken c.disks h.disks;
    machines = Writes-weaken c.machines h.machines;
    accesses = Writes-weaken c.accesses h.accesses;
    policies = Writes-weaken c.policies h.policies;
  }

module _ {W : Type 0} {P : W → Type 0} {E : Error → Type 0} {Obj : Type 0} (c : ObjectClient W Obj)
    (ready : Obj → Bool) (text : String) (waiting : Error) where
  await-Ends :
      (namespace name : String)
      → ((w : W) → P w → Ends E Anything (awaited ready text waiting (c.get namespace name w)))
      → Ensures P (Ends E Anything) (await c namespace name ready text waiting)
  unfolding do_get
  await-Ends namespace name h =
      Ensures-and_then {Q = λ r. Ends E Anything (awaited ready text waiting r)} _ _
        (Ensures-call _ (λ w p. (p, h w p))) (λ r q. returns q)

module _ {W : Type 0} {P : W → Type 0} {Obj : Type 0} (c : ObjectClient W Obj) (ready : Obj → Bool)
    (text : String) (waiting : Error) (namespace name : String) where
  await-IsRetried : Ensures P (Ends IsRetried Anything) (await c namespace name ready text waiting)
  await-IsRetried =
      await-Ends c ready text waiting namespace name
        (λ w p. awaited-IsRetried ready text waiting (c.get namespace name w))

module _ {W : Type 0} (c : BastionClient W) (project : String) where
  -- Once the API server takes every object of a bastion, and the profile has a machine type and an image for it, a
  -- reconciliation of the objects ends in no error but one that the controller takes for the order to come back after half
  -- a minute.
  pub bastion_objects_come_back :
      (profile : CloudProfileConfig) (held : BastionProfile) (bastion : Bastion)
      → WritesAll Anything Never c
      → Chooses profile held
      → Ensures Anything
          (Ends IsRetried Anything)
          (reconcile_bastion_objects profile held c project bastion)
  unfolding wait_for_virtual_machine_disk_ready wait_for_virtual_machine_ready
      wait_for_virtual_machine_external_access_ready
  bastion_objects_come_back profile held bastion writes chooses =
      objects-Ends IsRetried-IsWrapped c project (WritesAll-weaken IsRetried c writes)
        record {
          disk = λ n. await-IsRetried c.disks _ _ _ project n;
          machine = λ n. await-IsRetried c.machines _ _ _ project n;
          access = λ n. await-IsRetried c.accesses _ _ _ project n;
        }
        profile held bastion chooses
