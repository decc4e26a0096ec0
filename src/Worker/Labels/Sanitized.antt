-- ===== src/Worker/Labels/Sanitized.antt =====
-- What the labels of machines look like, and that the gateway for egress selects them.
use Prim.Native.Nat.{compare, Ordering}
use Prim.Native.Char.{Char, code, len_utf8}
use Prim.Native.String.len
use Prim.Native.String.slice
use Prim.Native.String.{[], ◌∷◌, len, slice, fits}
use mathlib.Core.List.{List}
use mathlib.Core.Bool.{false≢true}
use gardener_extension_provi.Common.{
  both_true, ℕ, ◌-◌, ◌≤◌, any, String, ◌≡◌, refl, sym, ap, ◌∙◌, Bool, true, false, ◌&&◌, ◌==◌, ltb,
  nat_eq, eq_iff, Bool-cases, inl, inr, arith, some, lookup, insert, lookup-insert,
  lookup-insert_self, if◌then◌else◌,
}
use gardener_extension_provi.DnsRecord.Letters.{capitals}
use gardener_extension_provi.DnsRecord.Name.{lower, to_lower}
use gardener_extension_provi.DnsRecord.Name.Kept.{lower_in_kept}
use gardener_extension_provi.Infrastructure.Egress.{nat_gateway, workload_label_selector_key}
use gardener_extension_provi.Worker.Objects.{WorkerResource, WorkerPool}
use gardener_extension_provi.Worker.Labels.{
  is_label_char, replace_each, cut_label, sanitize_label_or_value, add_pool_labels, fixed_labels,
  get_gdch_pool_labels,
}

-- only characters that a label may have
abbrev pub all_label : String → Bool
all_label [] = true
all_label (c ∷ s) = is_label_char c && all_label s

-- a label's characters, and at most 63 bytes
abbrev pub IsLabel : String → Type 0
IsLabel s = (all_label s ≡ true) × (len s ≤ 63)

replaced_char :
    (c : Char) (b : Bool) → is_label_char c ≡ b → is_label_char (if b then c else "_") ≡ true
replaced_char c true h = h
replaced_char c false h = unfold is_label_char in refl

replace_each-all_label : (s : String) → all_label (replace_each s) ≡ true
unfolding replace_each
replace_each-all_label [] = refl
replace_each-all_label (c ∷ s) =
    rw (replaced_char c (is_label_char c) refl, replace_each-all_label s) refl

fits-all_label :
    (o : Ordering) (c : Char) (s : String)
    → is_label_char c ≡ true
    → all_label s ≡ true
    → all_label (fits o c s) ≡ true
fits-all_label Ordering.lt c s h k = rw (h, k) refl
fits-all_label Ordering.eq c s h k = rw (h, k) refl
fits-all_label Ordering.gt c s h k = refl

slice-all_label : (s : String) (b : ℕ) → all_label s ≡ true → all_label (slice s 0 b) ≡ true
slice-all_label [] b h = rw (slice.nil 0 b) refl
slice-all_label (c ∷ s) b h =
    let (k, l) = both_true (is_label_char c) (all_label s) h in
    rw (slice.cons-zero c s b)
      (fits-all_label (compare (len_utf8 c) b) c _ k (slice-all_label s (b - len_utf8 c) l))

fits-len :
    (o : Ordering) (c : Char) (s : String) (b : ℕ)
    → compare (len_utf8 c) b ≡ o
    → len s ≤ b - len_utf8 c
    → len (fits o c s) ≤ b
fits-len Ordering.lt c s b e h = rw (len.cons c s) (ground arith)
fits-len Ordering.eq c s b e h = rw (len.cons c s) (ground arith)
fits-len Ordering.gt c s b e h = rw len.nil (omega arith)

slice-len : (s : String) (b : ℕ) → len (slice s 0 b) ≤ b
slice-len [] b = rw (slice.nil 0 b, len.nil) (omega arith)
slice-len (c ∷ s) b =
    rw (slice.cons-zero c s b) (fits-len _ c _ b refl (slice-len s (b - len_utf8 c)))

cut-IsLabel :
    (b : Bool) (v : String)
    → all_label v ≡ true
    → ltb 63 (len v) ≡ b
    → IsLabel (if b then slice v 0 63 else v)
cut-IsLabel true v h e = (slice-all_label v 63 h, slice-len v 63)
cut-IsLabel false v h e = (h, ground arith)

-- A label goes through unchanged.
same_code-is_label :
    (c d : Char)
    → nat_eq (code d) (code c) ≡ true
    → is_label_char d ≡ false
    → is_label_char c ≡ false
unfolding is_label_char
same_code-is_label c d e h = ground arith

no_capital_is_label : any (λ p. is_label_char p.0) capitals ≡ false
unfolding is_label_char
no_capital_is_label = refl

to_lower_label : (s : String) → all_label s ≡ true → to_lower s ≡ s
unfolding to_lower lower
to_lower_label [] h = refl
to_lower_label (c ∷ s) h =
    let (k, l) = both_true (is_label_char c) (all_label s) h in
    rw
      (
        lower_in_kept is_label_char same_code-is_label c capitals k no_capital_is_label,
        to_lower_label s l,
      )
      refl

replace_label : (s : String) → all_label s ≡ true → replace_each s ≡ s
unfolding replace_each
replace_label [] h = refl
replace_label (c ∷ s) h =
    let (k, l) = both_true (is_label_char c) (all_label s) h in rw (k, replace_label s l) refl

cut_short : (s : String) → len s ≤ 63 → cut_label s ≡ s
cut_short s h = ground arith

-- Whatever the text, what it is sanitized to is a label: only a to z, 0 to 9, underscore and hyphen, and at most 63 bytes.
-- A text that is one already is kept, so that sanitizing twice is sanitizing once.
pub sanitize_label_or_value-IsLabel :
    (s : String) → IsLabel (sanitize_label_or_value s) × (IsLabel s → sanitize_label_or_value s ≡ s)
unfolding sanitize_label_or_value
sanitize_label_or_value-IsLabel s = (
  cut-IsLabel _ (replace_each (to_lower s)) (replace_each-all_label (to_lower s)) refl,
  λ (h, k). rw (to_lower_label s h, replace_label s h) (cut_short s k),
)

-- The key that the gateway selects by has periods and a slash, so that no label of a pool takes its place.
not_the_selector : (s : String) → all_label s ≡ true → (s == workload_label_selector_key) ≡ false
unfolding is_label_char
not_the_selector s h = elim (Bool-cases (s == workload_label_selector_key)) [
  | inr e ↦ e
  | inl e ↦
      absurd (false≢true (ap all_label (sym ((eq_iff s workload_label_selector_key).0 e)) ∙ h))
]

add_pool_labels-selector :
    (pool labels : List (String × String)) (cluster : String)
    → lookup workload_label_selector_key labels ≡ some cluster
    → lookup workload_label_selector_key (add_pool_labels labels pool) ≡ some cluster
unfolding add_pool_labels
add_pool_labels-selector List.[] labels cluster h = h
add_pool_labels-selector (List.◌∷◌ (k, v) rest) labels cluster h =
    add_pool_labels-selector rest _ cluster (one_more (sanitize_label_or_value k == "") k v)
  where
    one_more :
        (b : Bool) (k v : String)
        → lookup workload_label_selector_key (
            if b
            then labels
            else insert (sanitize_label_or_value k) (sanitize_label_or_value v) labels)
          ≡ some cluster
    one_more true k v = h
    one_more false k v =
        lookup-insert (sanitize_label_or_value k) workload_label_selector_key
          (sanitize_label_or_value v) labels
        ∙ rw (not_the_selector _ (sanitize_label_or_value-IsLabel k).0.0) h

-- matchLabels of a selector: each of its labels is there with its value
abbrev pub Selects : List (String × String) → List (String × String) → Type 0
Selects List.[] labels = Unit
Selects (List.◌∷◌ (k, v) rest) labels = (lookup k labels ≡ some v) × Selects rest labels

-- The gateway through which a shoot's machines reach out selects every machine of the shoot, whatever labels its pool sets:
-- the labels of the gateway's selector are among the machine's. Gateway and machine are named after the same shoot: its
-- namespace for one, the cluster's name for the other.
pub nat_gateway-Selects :
    (worker : WorkerResource) (pool : WorkerPool) (shoot project name : String)
    → Selects (nat_gateway project name shoot).match_labels (get_gdch_pool_labels worker pool shoot)
unfolding get_gdch_pool_labels
nat_gateway-Selects worker pool shoot project name = (
  add_pool_labels-selector pool.labels _ shoot
      (lookup-insert_self workload_label_selector_key shoot (fixed_labels worker)),
  tt,
)
