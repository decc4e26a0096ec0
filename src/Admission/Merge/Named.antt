-- ===== src/Admission/Merge/Named.antt =====
-- Which image a name gets when two lists of machine images are merged.
use mathlib.Core.Path.{subst}
use Prim.Native.String.{compare}
use Prim.Native.Nat.{Ordering}
use gardener_extension_provi.Common.{
  String, ◌≡◌, refl, sym, ap, ◌∙◌, Bool, true, false, ◌==◌, eq_iff, Option, none, some, List, [],
  ◌∷◌, ◌++◌, lookup, insert, lookup-insert, arith, if◌then◌else◌, All,
}
use gardener_extension_provi.Apis.{MachineImages}
use gardener_extension_provi.Admission.Merge.{
  ImageMap, by_name, merged_image, merge_images, map_values, put_before, insert_by_name,
  sort_by_name, merge_machine_images,
}

-- the first image of a name
abbrev pub named : String → List MachineImages → Option MachineImages
named n [] = none
named n (x ∷ l) = if x.name == n then some x else named n l

-- the last image of a name
abbrev pub last_named : String → List MachineImages → Option MachineImages → Option MachineImages
last_named n [] found = found
last_named n (x ∷ l) found = last_named n l (if x.name == n then some x else found)

named-insert :
    (n : String) (x : MachineImages) (l : List MachineImages)
    → named n (insert_by_name x l) ≡ (if x.name == n then some x else named n l)
named-insert n x [] = refl
named-insert n x (y ∷ l) = at_order (compare y.name x.name) refl (named-insert n x l)
  where
    at_order :
        (o : Ordering)
        → compare y.name x.name ≡ o
        → named n (insert_by_name x l) ≡ (if x.name == n then some x else named n l)
        → named n (put_before o x y (insert_by_name x l) l)
          ≡ (if x.name == n then some x else named n (y ∷ l))
    at_order Ordering.lt e later =
        ground (arith, later, eq_iff y.name n, eq_iff x.name n, eq_iff y.name x.name, e)
    at_order Ordering.eq e later = refl
    at_order Ordering.gt e later = refl

named-sort : (n : String) (l : List MachineImages) → named n (sort_by_name l) ≡ named n l
named-sort n [] = refl
named-sort n (x ∷ l) =
    named-insert n x (sort_by_name l) ∙ ap (λ o. if x.name == n then some x else o) (named-sort n l)

-- each image stands under its own name
abbrev pub Keyed : ImageMap → Type 0
Keyed = All (λ e. e.0 ≡ e.1.name)

named-values : (n : String) (m : ImageMap) → Keyed m → named n (map_values m) ≡ lookup n m
named-values n [] k = refl
named-values n ((name, image) ∷ m) (e, k) =
    ap (λ s. if s == n then some image else named n (map_values m)) (sym e)
    ∙ ap (λ o. if name == n then some image else o) (named-values n m k)

Keyed-insert :
    (name : String) (image : MachineImages) (m : ImageMap)
    → name ≡ image.name
    → Keyed m
    → Keyed (insert name image m)
Keyed-insert name image [] e k = (e, tt)
Keyed-insert name image ((other, old) ∷ m) e (f, k) =
    by_test (other == name) (Keyed-insert name image m e k)
  where
    by_test :
        (b : Bool)
        → Keyed (insert name image m)
        → Keyed (if b then (name, image) ∷ m else (other, old) ∷ insert name image m)
    by_test true later = (e, k)
    by_test false later = (f, later)

by_name-Keyed : (m : ImageMap) (l : List MachineImages) → Keyed m → Keyed (by_name m l)
unfolding by_name
by_name-Keyed m [] k = k
by_name-Keyed m (x ∷ l) k = by_name-Keyed (insert x.name x m) l (Keyed-insert x.name x m refl k)

lookup-by_name :
    (n : String) (m : ImageMap) (l : List MachineImages)
    → lookup n (by_name m l) ≡ last_named n l (lookup n m)
unfolding by_name
lookup-by_name n m [] = refl
lookup-by_name n m (x ∷ l) =
    lookup-by_name n (insert x.name x m) l ∙ ap (last_named n l) (lookup-insert x.name n x m)

-- what the merge makes of the status's image and the specification's
abbrev merged : String → Option MachineImages → Option MachineImages → Option MachineImages
merged n status none = status
merged n status (some spec) = some (merged_image n spec status)

-- no key twice
abbrev pub Distinct : ImageMap → Type 0
Distinct [] = Unit
Distinct ((name, image) ∷ m) = (lookup name m ≡ none) × Distinct m

Distinct-insert :
    (name : String) (image : MachineImages) (m : ImageMap)
    → Distinct m
    → Distinct (insert name image m)
Distinct-insert name image [] d = (refl, tt)
Distinct-insert name image ((other, old) ∷ m) (absent, d) =
    by_test (other == name) refl (Distinct-insert name image m d)
  where
    by_test :
        (b : Bool)
        → other == name ≡ b
        → Distinct (insert name image m)
        → Distinct (if b then (name, image) ∷ m else (other, old) ∷ insert name image m)
    by_test true e later = (subst (λ k. lookup k m ≡ none) ((eq_iff other name).0 e) absent, d)
    by_test false e later = (
      lookup-insert name other image m
          ∙ ground (arith, eq_iff name other, eq_iff other name, e, absent),
      later,
    )

by_name-Distinct : (m : ImageMap) (l : List MachineImages) → Distinct m → Distinct (by_name m l)
unfolding by_name
by_name-Distinct m [] d = d
by_name-Distinct m (x ∷ l) d = by_name-Distinct (insert x.name x m) l (Distinct-insert x.name x m d)

one_step :
    (n name : String) (spec : MachineImages) (status later : Option MachineImages)
    (own : Option MachineImages)
    → (b : Bool) → (b ≡ true → (name ≡ n) × (own ≡ status) × (later ≡ none))
    → merged n (if b then some (merged_image name spec own) else status) later
      ≡ merged n status (if b then some spec else later)
one_step n name spec status later own true h = let (e, f, g) = h refl in rw (g, e, f) refl
one_step n name spec status later own false h = refl

lookup-merge :
    (n : String) (specs status : ImageMap)
    → Distinct specs
    → lookup n (merge_images status specs) ≡ merged n (lookup n status) (lookup n specs)
unfolding merge_images
lookup-merge n [] status d = refl
lookup-merge n ((name, spec) ∷ specs) status (absent, d) =
    lookup-merge n specs (insert name (merged_image name spec (lookup name status)) status) d
    ∙ ap (λ o. merged n o (lookup n specs)) (lookup-insert name n _ status)
    ∙ one_step n name spec (lookup n status) (lookup n specs) (lookup name status) (name == n) (λ e.
      let same = (eq_iff name n).0 e in
      (same, ap (λ k. lookup k status) same, ap (λ k. lookup k specs) (sym same) ∙ absent))

merge-Keyed :
    (specs status : ImageMap) → Keyed specs → Keyed status → Keyed (merge_images status specs)
unfolding merge_images
merge-Keyed [] status k l = l
merge-Keyed ((name, spec) ∷ specs) status (e, k) l =
    merge-Keyed specs _ k (Keyed-insert name _ status (own (lookup name status)) l)
  where
    own : (o : Option MachineImages) → name ≡ (merged_image name spec o).name
    own none = e
    own (some status) = refl

named-merged :
    (n : String) (spec status : List MachineImages)
    → named n (merge_machine_images spec status)
      ≡ merged n (last_named n status none) (last_named n spec none)
unfolding merge_machine_images
named-merged n spec status =
    let specs = by_name [] spec in
    let statuses = by_name [] status in
    named-sort n (map_values (merge_images statuses specs))
    ∙ named-values n (merge_images statuses specs)
        (merge-Keyed specs statuses (by_name-Keyed [] spec tt) (by_name-Keyed [] status tt))
    ∙ lookup-merge n specs statuses (by_name-Distinct [] spec tt)
    ∙ ap (λ o. merged n o (lookup n specs)) (lookup-by_name n [] status)
    ∙ ap (λ o. merged n (last_named n status none) o) (lookup-by_name n [] spec)

-- the image of a name that is left of the status's image and the specification's
abbrev pub joined_images :
    String → Option MachineImages → Option MachineImages → Option MachineImages
joined_images n none spec = spec
joined_images n (some status) none = some status
joined_images n (some status) (some spec) =
    some (record { name = n; project = ""; versions = status.versions ++ spec.versions })

-- The image that a name has once the images of a namespaced cloud profile are merged into those of its status: what the one
-- list has where the other has none, else the versions of both, those of the status first, and no project. Of images with
-- one name in a list the last counts.
pub named-merge :
    (n : String) (spec status : List MachineImages)
    → named n (merge_machine_images spec status)
      ≡ joined_images n (last_named n status none) (last_named n spec none)
named-merge n spec status =
    named-merged n spec status ∙ both (last_named n status none) (last_named n spec none)
  where
    both : (a b : Option MachineImages) → merged n a b ≡ joined_images n a b
    both none none = refl
    both none (some spec) = refl
    both (some status) none = refl
    both (some status) (some spec) = refl
