-- ===== src/DnsRecord/Letters.antt =====
-- The letters that strings.ToLower brings into the range a to z.
use Prim.Native.Char.{Char}
use mathlib.Core.List.{List, [], ◌∷◌}

-- A to Z, the Kelvin sign and the capital I with a dot. Of any other character neither it nor its small letter is one of
-- those that dns_name.go keeps.
abbrev pub capitals : List (Char × Char)
capitals =
    ("A", "a")
    ∷ ("B", "b")
    ∷ ("C", "c")
    ∷ ("D", "d")
    ∷ ("E", "e")
    ∷ ("F", "f")
    ∷ ("G", "g")
    ∷ ("H", "h")
    ∷ ("I", "i")
    ∷ ("J", "j")
    ∷ ("K", "k")
    ∷ ("L", "l")
    ∷ ("M", "m")
    ∷ ("N", "n")
    ∷ ("O", "o")
    ∷ ("P", "p")
    ∷ ("Q", "q")
    ∷ ("R", "r")
    ∷ ("S", "s")
    ∷ ("T", "t")
    ∷ ("U", "u")
    ∷ ("V", "v")
    ∷ ("W", "w")
    ∷ ("X", "x")
    ∷ ("Y", "y")
    ∷ ("Z", "z")
    ∷ ("K", "k")
    ∷ ("İ", "i")
    ∷ []
