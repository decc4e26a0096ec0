-- ===== src/Infrastructure/Deletion/Gone/Steps.antt =====
-- The steps of a deletion: what each leaves behind, and what a deletion that goes through has gone through.
use gardener_extension_provi.Common.{
  String, ◌≡◌, refl, ap, ◌∙◌, sym, true, Bool-cases, inl, inr, Option, none, some, lookup, arith,
  ◌⊎◌,
}
use gardener_extension_provi.Failure.{Error, panic, Result, ok, err, is_not_found}
use gardener_extension_provi.Action.{Exec, run, done, and_then, ◌>>=◌, go_on}
use gardener_extension_provi.Action.Laws.{run-and_then, run-bind, run-done}
use gardener_extension_provi.Kube.{Subnet, ObjectClient, do_delete, run-delete}
use gardener_extension_provi.Infrastructure.{KubeClient, Zonal, zonal_client}
use gardener_extension_provi.Infrastructure.Deletion.{determined, deleted, or_determined}

-- errors.DetermineError turns an error into an error
abbrev pub KeepsErrors : (Option Error → Option Error) → Type 0
KeepsErrors determine = (e : Error) → (e' : Error) × (determine (some e) ≡ some e')

module _ {W : Type 0} (G : W → Type 0) where
  -- what holds before the thread holds after it, whatever it returns
  abbrev pub Stays : {A : Type 0} → Exec W A → Type 0
  Stays m = (w : W) → G w → G (run m w).1

  Stays-go_on :
      {A B : Type 0} (f : A → Exec W B) (r : Result A) → ((a : A) → Stays (f a)) → Stays (go_on f r)
  Stays-go_on f (ok a) keep w g = keep a w g
  Stays-go_on f (err e) keep w g = unfold run in g

  Stays-bind :
      {A B : Type 0} (m : Exec W A) (f : A → Exec W B)
      → Stays m
      → ((a : A) → Stays (f a))
      → Stays (m >>= f)
  Stays-bind m f km kf w g = rw run-bind (Stays-go_on f (run m w).0 kf (run m w).1 (km w g))

  module _ (determine : Option Error → Option Error) where
    continue_or : Exec W (Unit {0}) → Result (Unit {0}) → Exec W (Unit {0})
    continue_or rest r = elim r [ ok u ↦ rest | err e ↦ done (determined determine (err e)) ]

    Stays-continue_or :
        (rest : Exec W (Unit {0})) (r : Result (Unit {0})) → Stays rest → Stays (continue_or rest r)
    unfolding continue_or
    Stays-continue_or rest (ok u) keep w g = keep w g
    Stays-continue_or rest (err e) keep w g = unfold run in g

    pub Stays-or_determined :
        (m rest : Exec W (Unit {0})) → Stays m → Stays rest → Stays (or_determined determine m rest)
    unfolding or_determined continue_or
    Stays-or_determined m rest km kr w g =
        rw run-and_then (Stays-continue_or rest (run m w).0 kr (run m w).1 (km w g))

module _ {W : Type 0} (determine : Option Error → Option Error) (keeps : KeepsErrors determine)
    (m rest : Exec W (Unit {0})) (w : W) where
  continue_ok :
      (r : Result (Unit {0})) (v : W)
      → (run (elim r [ ok u ↦ rest | err e ↦ done (determined determine (err e)) ]) v).0 ≡ ok tt
      → (r ≡ ok tt)
        × (run (elim r [ ok u ↦ rest | err e ↦ done (determined determine (err e)) ]) v
            ≡ run rest v)
  unfolding run
  continue_ok (ok tt) v h = (refl, refl)
  continue_ok (err e) v h = let (e', found) = keeps e in cc (found)

  -- a deletion that goes through to the end has gone through each of its parts
  pub or_determined_ok :
      (run (or_determined determine m rest) w).0 ≡ ok tt
      → ((run m w).0 ≡ ok tt) × (run (or_determined determine m rest) w ≡ run rest (run m w).1)
  unfolding or_determined
  or_determined_ok h =
      let next : Result (Unit {0}) → Exec W (Unit {0}) =
        λ r. elim r [ ok u ↦ rest | err e ↦ done (determined determine (err e)) ] in
      let through = run-and_then m next w in
      let (first, then_rest) =
        continue_ok (run m w).0 (run m w).1 (sym (ap (λ t. t.0) through) ∙ h) in
      (first, through ∙ then_rest)

-- a Delete that is taken for a success was accepted, or found nothing
pub deleted_ok :
    (text : String) (r : Result (Unit {0}))
    → deleted text r ≡ ok tt
    → (r ≡ ok tt) ⊎ ((e : Error) × (r ≡ err e) × (is_not_found e ≡ true))
deleted_ok text (ok tt) h = inl refl
deleted_ok text (err e) h = elim (Bool-cases (is_not_found e)) [
  | inl gone ↦ inr (e, refl, gone)
  | inr other ↦ absurd (ground (arith))
]

module _ {W : Type 0} (c : ObjectClient W Subnet) (ns n : String) (w : W) where
  pub run-delete_subnet :
      (text : String)
      → run (and_then (do_delete c ns n) (λ r. done (deleted text r))) w
        ≡ (deleted text (c.delete ns n w).0, (c.delete ns n w).1)
  run-delete_subnet text =
      rw run-and_then
        (rw run-delete (run-done (deleted text (c.delete ns n w).0) (c.delete ns n w).1))

-- looking up the client of a zone
module _ {W : Type 0} (zone : String) (clients : Zonal W) (w : W) where
  pub zonal_client-found :
      (k : KubeClient W)
      → lookup zone clients ≡ some k
      → run (zonal_client zone clients) w ≡ (ok k, w)
  unfolding zonal_client run
  zonal_client-found k found = rw found

  pub zonal_client-missing :
      lookup zone clients ≡ none → run (zonal_client zone clients) w ≡ (err (panic "nil client"), w)
  unfolding zonal_client run
  zonal_client-missing missing = rw missing
