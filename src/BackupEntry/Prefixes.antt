-- ===== src/BackupEntry/Prefixes.antt =====
-- Texts of names and keys: what a name and a slash are a prefix of.
use Prim.Native.String.{[], ◌∷◌, ◌++◌, len, slice}
use Prim.Native.String.append
use Prim.Native.Char.{code}
use text.Mathlib.TextLemmas.{head-eq_of_cons-eq, tail-eq_of_cons-eq, append_assoc, append-nil}
use text.Mathlib.Text.{starts_with}
use text.Mathlib.TextEquality.{starts_with_iff}
use text.Mathlib.TextPositions.{starts_with-append, slice-append_right, len-append}
use gardener_extension_provi.BackupEntry.{trim_prefix, entry_prefix}
use gardener_extension_provi.Common.{
  String, concat, ◌≡◌, ◌≢◌, refl, sym, ap, ◌∙◌, false, Bool-cases, inl, inr, List,
}

-- no slash in the text, as in the names of Kubernetes objects
abbrev pub HasNoSlash : String → Type 0
HasNoSlash [] = Unit
HasNoSlash (c ∷ s) = (code c ≢ 47) × HasNoSlash s

after_slash : (s : String) → "/" ++ s ≡ "/" ∷ s
after_slash s = append.cons "/" [] s ∙ ap (λ v. "/" ∷ v) (append.nil s)

ends_at_slash :
    (a b s t : String) → HasNoSlash a → HasNoSlash b → a ++ ("/" ++ s) ≡ b ++ ("/" ++ t) → a ≡ b
ends_at_slash [] [] s t h k e = refl
ends_at_slash [] (c ∷ b) s t h (k, ks) e =
    let q = sym (append.nil ("/" ++ s) ∙ after_slash s) ∙ e ∙ append.cons c b ("/" ++ t) in
    absurd (k (ap code (sym (head-eq_of_cons-eq q))))
ends_at_slash (c ∷ a) [] s t (h, hs) k e =
    let q = sym (append.cons c a ("/" ++ s)) ∙ e ∙ append.nil ("/" ++ t) ∙ after_slash t in
    absurd (h (ap code (head-eq_of_cons-eq q)))
ends_at_slash (c ∷ a) (d ∷ b) s t (h, hs) (k, ks) e =
    let q = sym (append.cons c a ("/" ++ s)) ∙ e ∙ append.cons d b ("/" ++ t) in
    let later = ends_at_slash a b s t hs ks (tail-eq_of_cons-eq q) in
    ap (λ x. x ∷ a) (head-eq_of_cons-eq q) ∙ ap (λ v. d ∷ v) later

-- a key under one name does not begin with another name and a slash
pub other_prefix :
    (name other file : String)
    → HasNoSlash name
    → HasNoSlash other
    → name ≢ other
    → starts_with
        (concat (List.◌∷◌ other (List.◌∷◌ "/" (List.◌∷◌ file List.[]))))
        (concat (List.◌∷◌ name (List.◌∷◌ "/" List.[])))
      ≡ false
other_prefix name other file h k differ = elim (Bool-cases (starts_with key prefix)) [
  | inl t ↦
      let (rest, e) = (starts_with_iff key prefix).0 t in
      absurd (
        differ (
          ends_at_slash name other rest file h k (
            sym (append_assoc name "/" rest)
            ∙ e
            ∙ ap (λ v. other ++ ("/" ++ v)) (append-nil file))))
  | inr f ↦ f
]
  where
    key : String
    key = concat (List.◌∷◌ other (List.◌∷◌ "/" (List.◌∷◌ file List.[])))

    prefix : String
    prefix = concat (List.◌∷◌ name (List.◌∷◌ "/" List.[]))

-- the prefix of the entry of a source: the source's name and a slash
pub entry_prefix_of_source :
    (name : String)
    → entry_prefix (concat (List.◌∷◌ "source-" (List.◌∷◌ name List.[])))
      ≡ concat (List.◌∷◌ name (List.◌∷◌ "/" List.[]))
unfolding entry_prefix
entry_prefix_of_source name =
    ap (λ v. concat (List.◌∷◌ (trim_prefix ("source-" ++ v) "source-") (List.◌∷◌ "/" List.[])))
      (append-nil name)
    ∙ ap (λ v. concat (List.◌∷◌ v (List.◌∷◌ "/" List.[]))) (trimmed name)
  where
    trimmed : (name : String) → trim_prefix ("source-" ++ name) "source-" ≡ name
    trimmed name = rw (starts_with-append "source-" name) (
        ap (slice ("source-" ++ name) (len "source-")) (len-append "source-" name)
        ∙ slice-append_right "source-" name)
