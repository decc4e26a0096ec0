-- ===== src/Webhook/Texts.antt =====
-- pkg/webhook/shootservice/mutator.go: the functions on texts of Go's libraries that it calls.
use Prim.Native.String.{String, [], ◌∷◌}
use Prim.Native.Char.{Char, code}
use gardener_extension_provi.Common.{
  concat, Bool, ◌&&◌, ◌||◌, ◌==◌, leb, nat_eq, List, if◌then◌else◌,
}

-- the head of the first part, put before the others
abbrev push : Char → List String → List String
push c List.[] = List.◌∷◌ (c ∷ []) List.[]
push c (List.◌∷◌ s parts) = List.◌∷◌ (c ∷ s) parts

-- strings.Split by a comma
unfoldable pub split : String → List String
split [] = List.◌∷◌ "" List.[]
split (c ∷ s) =
    let parts = split s in if nat_eq (code c) 44 then List.◌∷◌ "" parts else push c parts

-- strings.Join by a comma
unfoldable pub join : List String → String
join List.[] = ""
join (List.◌∷◌ s List.[]) = s
join (List.◌∷◌ s (List.◌∷◌ t rest)) =
    concat (List.◌∷◌ s (List.◌∷◌ "," (List.◌∷◌ (join (List.◌∷◌ t rest)) List.[])))

-- unicode.IsSpace: the characters with the property White_Space
abbrev pub is_space : Char → Bool
is_space c =
    let n = code c in
    leb 9 n && leb n 13
    || nat_eq n 32
    || nat_eq n 133
    || nat_eq n 160
    || nat_eq n 5760
    || leb 8192 n && leb n 8202
    || nat_eq n 8232
    || nat_eq n 8233
    || nat_eq n 8239
    || nat_eq n 8287
    || nat_eq n 12288

unfoldable pub trim_start : String → String
trim_start [] = []
trim_start (c ∷ s) = let later = trim_start s in if is_space c then later else c ∷ s

unfoldable pub trim_end : String → String
trim_end [] = []
trim_end (c ∷ s) = let later = trim_end s in if later == "" && is_space c then "" else c ∷ later

-- strings.TrimSpace
abbrev pub trim_space : String → String
trim_space s = trim_end (trim_start s)
