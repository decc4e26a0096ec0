-- ===== src/DnsRecord/Name/Kept.antt =====
-- What the names of record sets look like, and which records get the same one.
use Prim.Native.Char.{Char, code}
use Prim.Native.String
use Prim.Native.String.{[], ◌∷◌}
use text.Mathlib.TextLemmas.{nil-append, cons-append}
use mathlib.Core.List.{List}
use mathlib.Core.Bool.{false≢true}
use gardener_extension_provi.Common.{
  any, String, ◌≡◌, refl, sym, ap, ◌∙◌, Bool, true, false, not, Bool-cases, inl, inr, arith, nat_eq,
  ◌||◌,
}
use gardener_extension_provi.DnsRecord.Letters.{capitals}
use gardener_extension_provi.DnsRecord.Name.{
  is_kept, lower, to_lower, trim_wildcard, put, replace_invalid, get_dns_record_set_name, lower_in,
}

-- only characters that are allowed
abbrev pub AllKept : String → Type 0
AllKept [] = Unit
AllKept (c ∷ s) = (is_kept c ≡ true) × AllKept s

put-AllKept :
    (kept in_run : Bool) (c : Char) (s : String)
    → is_kept c ≡ kept
    → AllKept s
    → AllKept (put kept in_run c s)
put-AllKept true in_run c s e h = (e, h)
put-AllKept false true c s e h = h
put-AllKept false false c s e h = (unfold is_kept in refl, h)

replace_invalid-AllKept : (in_run : Bool) (s : String) → AllKept (replace_invalid in_run s)
unfolding replace_invalid
replace_invalid-AllKept in_run [] = tt
replace_invalid-AllKept in_run (c ∷ s) =
    put-AllKept (is_kept c) in_run c _ refl (replace_invalid-AllKept (not (is_kept c)) s)

-- A text of allowed characters goes through unchanged.
same_code-is_kept :
    (c d : Char) → nat_eq (code d) (code c) ≡ true → is_kept d ≡ false → is_kept c ≡ false
unfolding is_kept
same_code-is_kept c d e h = ground arith

-- a character that passes a test stays, if the test tells it from the capitals
pub lower_in_kept :
    (p : Char → Bool)
    → ((c d : Char) → nat_eq (code d) (code c) ≡ true → p d ≡ false → p c ≡ false)
    → (c : Char) (table : List (Char × Char)) → p c ≡ true
    → any (λ q. p q.0) table ≡ false
    → lower_in c table ≡ c
lower_in_kept p same c List.[] h k = refl
lower_in_kept p same c (List.◌∷◌ (d, small) table) h k =
    let (x, y) = either_false (p d) (any (λ q. p q.0) table) k in
    elim (Bool-cases (nat_eq (code d) (code c))) [
      | inl e ↦ absurd (false≢true (sym (same c d e x) ∙ h))
      | inr other ↦ rw other (lower_in_kept p same c table h y)
    ]
  where
    either_false : (a b : Bool) → (a || b) ≡ false → (a ≡ false) × (b ≡ false)
    either_false a b e = ground arith

no_capital_is_kept : any (λ p. is_kept p.0) capitals ≡ false
unfolding is_kept
no_capital_is_kept = refl

lower_kept : (c : Char) → is_kept c ≡ true → lower c ≡ c
unfolding lower
lower_kept c h = lower_in_kept is_kept same_code-is_kept c capitals h no_capital_is_kept

to_lower_kept : (s : String) → AllKept s → to_lower s ≡ s
unfolding to_lower
to_lower_kept [] h = refl
to_lower_kept (c ∷ s) (k, h) = rw (lower_kept c k, to_lower_kept s h)

replace_invalid_kept : (s : String) → AllKept s → replace_invalid false s ≡ s
unfolding replace_invalid
replace_invalid_kept [] h = refl
replace_invalid_kept (c ∷ s) (k, h) =
    rw (k, replace_invalid) (ap (λ t. c ∷ t) (replace_invalid_kept s h))

append-AllKept : (s t : String) → AllKept s → AllKept t → AllKept (String.◌++◌ s t)
append-AllKept [] t h k = rw nil-append k
append-AllKept (c ∷ s) t (x, h) k = rw cons-append (x, append-AllKept s t h k)

no_star : (c : Char) → is_kept c ≡ true → nat_eq (code c) 42 ≡ false
unfolding is_kept
no_star c h = ground arith

-- a name of allowed characters begins with no wildcard
trim_kept : (s : String) → AllKept s → trim_wildcard s ≡ s
unfolding trim_wildcard
trim_kept [] h = refl
trim_kept (c ∷ []) h = refl
trim_kept (c ∷ d ∷ s) (x, h) = rw (no_star c x)

-- The name of a record set has only the characters that a record set's name may have: a to z, 0 to 9, hyphen and period.
-- And records whose type and name have only those, and no wildcard in front, keep them: the name is type, hyphen, name.
pub get_dns_record_set_name-AllKept :
    (record_type name : String)
    → AllKept (get_dns_record_set_name record_type name)
      × (AllKept record_type
          → AllKept name
          → get_dns_record_set_name record_type name ≡ String.◌++◌ record_type ("-" ∷ name))
unfolding get_dns_record_set_name is_kept
get_dns_record_set_name-AllKept record_type name = (
  replace_invalid-AllKept false (to_lower (String.◌++◌ record_type ("-" ∷ trim_wildcard name))),
  λ t n.
      rw (trim_kept name n)
        (kept_throughout _ (append-AllKept record_type ("-" ∷ name) t (refl, n))),
)
  where
    kept_throughout : (s : String) → AllKept s → replace_invalid false (to_lower s) ≡ s
    kept_throughout s h = ap (replace_invalid false) (to_lower_kept s h) ∙ replace_invalid_kept s h

-- A wildcard record gets the name of the record without the wildcard, so that the two are written to one object, if the
-- name has no wildcard left.
pub wildcard_shares_the_name :
    (record_type name : String)
    → trim_wildcard name ≡ name
    → get_dns_record_set_name record_type ("*" ∷ "." ∷ name)
      ≡ get_dns_record_set_name record_type name
unfolding get_dns_record_set_name trim_wildcard
wildcard_shares_the_name record_type name h = rw h
