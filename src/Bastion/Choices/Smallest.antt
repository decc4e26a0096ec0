-- ===== src/Bastion/Choices/Smallest.antt =====
-- pkg/controller/bastion/actuator_reconcile.go: the machine type that findMostSuitableMachineType finds.
use mathlib.Core.Path.{subst}
use mathlib.Core.Option.{some_inj}
use gardener_extension_provi.Common.{
  ℤ, ◌≤ℤ◌, ltb_ℤ, String, ◌≡◌, ◌≢◌, refl, sym, ap, ◌∙◌, ◌⊎◌, inl, inr, Option, none, some, List, [],
  ◌∷◌, All, Any, Bool-cases, arith, if◌then◌else◌,
}
use gardener_extension_provi.Failure.{Result, ok, err}
use gardener_extension_provi.Bastion.{MachineType}
use gardener_extension_provi.Bastion.Choices.{
  Held, consider, smallest_machine, or_none_found, find_most_suitable_machine_type,
}

abbrev HasNone : MachineType → Type 0
HasNone m = m.architecture ≡ none

-- the machine, if it has an architecture, has at least so many CPUs
abbrev pub HasCpus : ℤ → MachineType → Type 0
HasCpus n m = (m.architecture ≢ none) → n ≤ℤ m.cpu

abbrev IsMachine : String × String × ℤ → MachineType → Type 0
IsMachine found m = (m.architecture ≡ some found.1) × ((m.name, found.1, m.cpu) ≡ found)

-- what the loop holds at its end, by what it held at its start
abbrev NotMore : ℤ → Held → Type 0
NotMore n none = Unit
NotMore n (some held) = n ≤ℤ held.2

abbrev Reached : List MachineType → Held → Held → Type 0
Reached ms held none = (held ≡ none) × All HasNone ms
Reached ms held (some found) =
    NotMore found.2 held
    × All (HasCpus found.2) ms
    × ((held ≡ some found) ⊎ Any (IsMachine found) ms)

skipped :
    (m : MachineType) (ms : List MachineType) (held r : Held)
    → m.architecture ≡ none
    → Reached ms held r
    → Reached (m ∷ ms) held r
skipped m ms held none p (q, a) = (q, (p, a))
skipped m ms held (some found) p (n, a, inl w) = (n, ((λ k. absurd (k p)), a), inl w)
skipped m ms held (some found) p (n, a, inr w) = (n, ((λ k. absurd (k p)), a), inr (inr w))

taken :
    (m : MachineType) (arch : String) (ms : List MachineType) (held r : Held)
    → m.architecture ≡ some arch
    → NotMore m.cpu held
    → Reached ms (some (m.name, arch, m.cpu)) r
    → Reached (m ∷ ms) held r
taken m arch ms held none p le (q, a) = absurd (cc (q))
taken m arch ms held (some found) p le (n, a, w) =
    (lower held le, ((λ k. n), a), inr (elim w [ inl e ↦ inl (is_found e) | inr w ↦ inr w ]))
  where
    lower : (held : Held) → NotMore m.cpu held → NotMore found.2 held
    lower none le = tt
    lower (some held) le = omega arith

    is_found : some (m.name, arch, m.cpu) ≡ some found → IsMachine found m
    is_found e =
        let q = some_inj.0 e in
        (p ∙ ap (λ t. some t.1) q, ap (λ a. (m.name, a, m.cpu)) (sym (ap (λ t. t.1) q)) ∙ q)

kept :
    (m : MachineType) (ms : List MachineType) (old : String × String × ℤ) (r : Held)
    → old.2 ≤ℤ m.cpu
    → Reached ms (some old) r
    → Reached (m ∷ ms) (some old) r
kept m ms old none le (q, a) = absurd (cc (q))
kept m ms old (some found) le (n, a, inl w) = (n, ((λ k. omega arith), a), inl w)
kept m ms old (some found) le (n, a, inr w) = (n, ((λ k. omega arith), a), inr (inr w))

considered :
    (m : MachineType) (o : Option String) (ms : List MachineType) (held r : Held)
    → m.architecture ≡ o
    → Reached ms (consider m o held) r
    → Reached (m ∷ ms) held r
considered m none ms held r p h = skipped m ms held r p h
considered m (some arch) ms none r p h = taken m arch ms none r p tt h
considered m (some arch) ms (some old) r p h = elim (Bool-cases (ltb_ℤ m.cpu old.2)) [
  | inl t ↦
      taken m arch ms (some old) r p (ground arith)
        (subst (λ b. Reached ms (if b then some (m.name, arch, m.cpu) else some old) r) t h)
  | inr t ↦
      kept m ms old r (ground arith)
        (subst (λ b. Reached ms (if b then some (m.name, arch, m.cpu) else some old) r) t h)
]

smallest_machine-Reached :
    (ms : List MachineType) (held : Held) → Reached ms held (smallest_machine ms held)
unfolding smallest_machine
smallest_machine-Reached [] none = (refl, tt)
smallest_machine-Reached [] (some old) = (omega arith, tt, inl refl)
smallest_machine-Reached (m ∷ ms) held =
    considered m m.architecture ms held _ refl
      (smallest_machine-Reached ms (consider m m.architecture held))

-- what the search returns: a machine of the list that has an architecture, and none of those has fewer CPUs; or an
-- error, where none has one
abbrev pub IsSmallest : List MachineType → Result (String × String) → Type 0
IsSmallest types (ok found) =
    (n : ℤ) × Any (IsMachine (found.0, found.1, n)) types × All (HasCpus n) types
IsSmallest types (err e) = All HasNone types

-- findMostSuitableMachineType returns the name and the architecture of a machine type of the cloud profile that has an
-- architecture, and no machine type that has one has fewer CPUs, part of a CPU counted as one. It fails only where none
-- has an architecture.
pub find_most_suitable_machine_type-IsSmallest :
    (types : List MachineType) → IsSmallest types (find_most_suitable_machine_type types)
unfolding find_most_suitable_machine_type
find_most_suitable_machine_type-IsSmallest types =
    said (smallest_machine types none) (smallest_machine-Reached types none)
  where
    said : (r : Held) → Reached types none r → IsSmallest types (or_none_found r)
    said none (q, a) = a
    said (some found) (n, a, inl w) = absurd (cc (w))
    said (some found) (n, a, inr w) = (found.2, w, a)
