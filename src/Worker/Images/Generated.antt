-- ===== src/Worker/Images/Generated.antt =====
-- What the images that generateMachineImages puts together are: one for each pool, as the search finds it.
use mathlib.Core.Path.{subst}
use gardener_extension_provi.Common.{
  String, Bool, true, false, ◌≡◌, refl, sym, ◌∙◌, ◌⊎◌, inl, inr, some, List, [], ◌∷◌, ◌++◌, eq_iff,
  eq_refl, All, arith, if◌then◌else◌,
}
use gardener_extension_provi.Failure.{Error, Result, ok, err}
use gardener_extension_provi.Apis.{CloudProfileConfig}
use gardener_extension_provi.Worker.Objects.{MachineImage, WorkerPool, WorkerResource, Surroundings}
use gardener_extension_provi.Worker.Images.{
  architecture_of, find_machine_image, append_unless, append_machine_image, find_worker_image,
  generate_machine_images, no_image_of,
}

abbrev pub Finder : Type 0
Finder = String → String → String → Result (String × String)

-- the images are those that a search gives for their names, versions and architectures
abbrev pub Consistent : Finder → List MachineImage → Type 0
Consistent find =
    All (λ m. find m.name m.version (architecture_of m.architecture) ≡ ok (m.image, m.project))

abbrev pub Has : List MachineImage → String → String → String → Type 0
Has images name version arch =
    (m : MachineImage) × (find_machine_image images name version arch ≡ ok m)

pub find-Consistent :
    (find : Finder) (ms : List MachineImage) (name version arch : String) (m : MachineImage)
    → Consistent find ms
    → find_machine_image ms name version arch ≡ ok m
    → find name version arch ≡ ok (m.image, m.project)
unfolding find_machine_image
find-Consistent find [] name version arch m c h = absurd (cc (h))
find-Consistent find (x ∷ ms) name version arch m (c, cs) h =
    let later = find-Consistent find ms name version arch m cs in
    ground (
      arith,
      eq_iff x.name name,
      eq_iff x.version version,
      eq_iff arch (architecture_of x.architecture),
      c,
      later,
    )

pub find-append :
    (ms ns : List MachineImage) (name version arch : String) (m : MachineImage)
    → find_machine_image ms name version arch ≡ ok m
    → find_machine_image (ms ++ ns) name version arch ≡ ok m
unfolding find_machine_image
find-append [] ns name version arch m h = absurd (cc (h))
find-append (x ∷ ms) ns name version arch m h =
    ground (arith, find-append ms ns name version arch m)

or_first :
    {A : Type 0} (b : Bool) (x : A) (later : Result A)
    → (y : A) × (later ≡ ok y)
    → (y : A) × ((if b then ok x else later) ≡ ok y)
or_first true x later h = (x, refl)
or_first false x later h = h

Has-self :
    (ms : List MachineImage) (x : MachineImage)
    → Has (ms ++ x ∷ []) x.name x.version (architecture_of x.architecture)
unfolding find_machine_image
Has-self [] x =
    rw (eq_refl x.name, eq_refl x.version, eq_refl (architecture_of x.architecture)) (_, refl)
Has-self (y ∷ ms) x = or_first _ _ _ (Has-self ms x)

Consistent-append :
    (find : Finder) (ms ns : List MachineImage)
    → Consistent find ms
    → Consistent find ns
    → Consistent find (ms ++ ns)
Consistent-append find [] ns h k = k
Consistent-append find (x ∷ ms) ns (c, h) k = (c, Consistent-append find ms ns h k)

-- one more image is looked for first, and put at the end when it is not there
abbrev Grown : Finder → List MachineImage → MachineImage → List MachineImage → Type 0
Grown find ms x ns =
    Consistent find ns
    × Has ns x.name x.version (architecture_of x.architecture)
    × ((name version arch : String) → Has ms name version arch → Has ns name version arch)

append_unless-Grown :
    (find : Finder) (ms : List MachineImage) (x : MachineImage) (r : Result MachineImage)
    → Consistent find ms
    → find x.name x.version (architecture_of x.architecture) ≡ ok (x.image, x.project)
    → find_machine_image ms x.name x.version (architecture_of x.architecture) ≡ r
    → Grown find ms x (append_unless ms x r)
append_unless-Grown find ms x (ok m) c f e = (c, (m, e), λ n v a h. h)
append_unless-Grown find ms x (err e) c f h = (
  Consistent-append find ms (x ∷ []) c (f, tt),
  Has-self ms x,
  λ n v a (m, k). (m, find-append ms (x ∷ []) n v a m k),
)

append_image-Grown :
    (find : Finder) (ms : List MachineImage) (x : MachineImage)
    → Consistent find ms
    → find x.name x.version (architecture_of x.architecture) ≡ ok (x.image, x.project)
    → Grown find ms x (append_machine_image ms x)
unfolding append_machine_image
append_image-Grown find ms x c f = append_unless-Grown find ms x _ c f refl

abbrev pub image_for : WorkerPool → String → String → MachineImage
image_for pool image project = record {
  name = pool.image_name;
  project = project;
  version = pool.image_version;
  image = image;
  architecture = some (architecture_of pool.architecture);
}

-- what a finder gives for a pool
abbrev pub find_for : Finder → WorkerPool → Result (String × String)
find_for find pool = find pool.image_name pool.image_version (architecture_of pool.architecture)

abbrev pub HasPool : List MachineImage → WorkerPool → Type 0
HasPool images pool =
    Has images pool.image_name pool.image_version (architecture_of pool.architecture)

pub Result-cases :
    {A : Type 0} (r : Result A) → ((a : A) × (r ≡ ok a)) ⊎ ((e : Error) × (r ≡ err e))
Result-cases (ok a) = inl (a, refl)
Result-cases (err e) = inr (e, refl)

pub ok_inj : {A : Type 0} {x y : A} → Path (Result A) (ok x) (ok y) → x ≡ y
ok_inj h = cc

module _ {W : Type 0} (env : Surroundings W) where
  pub generate_ok :
      (profile : CloudProfileConfig) (worker : WorkerResource) (ms : List MachineImage)
      (pool : WorkerPool) (pools : List WorkerPool) (image project : String)
      → find_for (find_worker_image env profile worker) pool ≡ ok (image, project)
      → generate_machine_images env profile worker ms (pool ∷ pools)
        ≡ generate_machine_images env profile worker
            (append_machine_image ms (image_for pool image project))
            pools
  unfolding generate_machine_images
  generate_ok profile worker ms pool pools image project e = rw (generate_machine_images, e) refl

  generate_err :
      (profile : CloudProfileConfig) (worker : WorkerResource) (ms : List MachineImage)
      (pool : WorkerPool) (pools : List WorkerPool) (e : Error)
      → find_for (find_worker_image env profile worker) pool ≡ err e
      → generate_machine_images env profile worker ms (pool ∷ pools) ≡ err (no_image_of env pool e)
  unfolding generate_machine_images
  generate_err profile worker ms pool pools e h = rw (generate_machine_images, h) refl

  -- the images that are generated are those of the pools, and the ones that were there
  abbrev pub Generated : Finder → List MachineImage → List WorkerPool → List MachineImage → Type 0
  Generated find ms pools out =
      Consistent find out
      × All (HasPool out) pools
      × ((name version arch : String) → Has ms name version arch → Has out name version arch)

  pub generate-Generated :
      (profile : CloudProfileConfig) (worker : WorkerResource) (ms : List MachineImage)
      (pools : List WorkerPool) (out : List MachineImage)
      → Consistent (find_worker_image env profile worker) ms
      → generate_machine_images env profile worker ms pools ≡ ok out
      → Generated (find_worker_image env profile worker) ms pools out
  unfolding generate_machine_images
  generate-Generated profile worker ms [] out c h =
      subst (λ l. Generated (find_worker_image env profile worker) ms [] l) (ok_inj h)
        (c, tt, λ n v a k. k)
  generate-Generated profile worker ms (pool ∷ pools) out c h =
      elim (Result-cases (find_for (find_worker_image env profile worker) pool)) [
        | inr (e, f) ↦ absurd (cc (sym (generate_err profile worker ms pool pools e f) ∙ h))
        | inl ((image, project), f) ↦
            let x = image_for pool image project in
            let (c', has, grown) =
              append_image-Grown (find_worker_image env profile worker) ms x c f in
            let (c'', hases, later) =
              generate-Generated profile worker (append_machine_image ms x) pools out c'
                (sym (generate_ok profile worker ms pool pools image project f) ∙ h) in
            (
              c'',
              (
                later pool.image_name pool.image_version (architecture_of pool.architecture) has,
                hases,
              ),
              λ n v a k. later n v a (grown n v a k),
            )
      ]
