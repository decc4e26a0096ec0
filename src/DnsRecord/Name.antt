-- ===== src/DnsRecord/Name.antt =====
-- pkg/controller/dnsrecord/dns_name.go: the name of the ResourceRecordSet for a record.
pub mod Kept
use Prim.Native.Char.{Char, code}
use gardener_extension_provi.DnsRecord.Letters.{capitals}
use gardener_extension_provi.Common.{
  String, concat, Bool, true, false, not, ◌&&◌, ◌||◌, nat_eq, leb, if◌then◌else◌,
}
use Prim.Native.String
use Prim.Native.String.{[], ◌∷◌}
use mathlib.Core.List
use mathlib.Core.List.{List}

-- a to z, 0 to 9, the hyphen and the period
unfoldable pub is_kept : Char → Bool
is_kept c =
    (leb 97 (code c) && leb (code c) 122)
    || (leb 48 (code c) && leb (code c) 57)
    || nat_eq (code c) 45
    || nat_eq (code c) 46

abbrev lower_in : Char → List (Char × Char) → Char
lower_in c List.[] = c
lower_in c (List.◌∷◌ (capital, small) rest) =
    if nat_eq (code capital) (code c) then small else lower_in c rest

-- unicode.ToLower, as far as the regular expression below can tell
unfoldable pub lower : Char → Char
lower c = lower_in c capitals

-- strings.ToLower
unfoldable pub to_lower : String → String
unfolding lower
to_lower [] = []
to_lower (c ∷ s) = lower c ∷ to_lower s

-- strings.TrimPrefix(name, "*.")
unfoldable pub trim_wildcard : String → String
trim_wildcard [] = []
trim_wildcard (c ∷ []) = c ∷ []
trim_wildcard (c ∷ d ∷ s) = if nat_eq (code c) 42 && nat_eq (code d) 46 then s else c ∷ d ∷ s

abbrev put : Bool → Bool → Char → String → String
put true in_run c rest = c ∷ rest
put false true c rest = rest
put false false c rest = "-" ∷ rest

-- invalidCharsRegex.ReplaceAllString(s, "-"); `in_run` tells whether the characters before were replaced
unfoldable pub replace_invalid : Bool → String → String
unfolding is_kept
replace_invalid in_run [] = []
replace_invalid in_run (c ∷ s) = put (is_kept c) in_run c (replace_invalid (not (is_kept c)) s)

unfoldable pub get_dns_record_set_name : String → String → String
unfolding replace_invalid to_lower trim_wildcard
get_dns_record_set_name record_type name =
    replace_invalid false (to_lower (String.◌++◌ record_type ("-" ∷ trim_wildcard name)))
