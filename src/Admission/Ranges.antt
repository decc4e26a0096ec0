-- ===== src/Admission/Ranges.antt =====
-- pkg/admission/validator/shoot.go: when two address ranges overlap. A range is what net.ParseCIDR makes of a CIDR.
use native.Mathlib.Nat.{add-zero, div-div-eq-div-mul, pow-suc, mul_assoc}
use gardener_extension_provi.Common.{
  ℕ, zero, suc, String, ◌+◌, ◌*◌, ◌/◌, ◌≡◌, refl, sym, ap, ◌∙◌, ◌↔◌, ◌⊎◌, inl, inr, Bool, true,
  false, ◌&&◌, ◌||◌, nat_eq, leb, Bool-cases, ◌-◌, ◌^◌, Option, some, arith,
}

-- net.IPNet: how many bits its addresses have, its address as a number, and the length of its prefix
pub record IpNet : Type 0 where
  pub bits : ℕ
  pub base : ℕ
  pub prefix : ℕ
  pub text : String

-- how many addresses a range has
abbrev pub size : IpNet → ℕ
size net = 2 ^ (net.bits - net.prefix)

-- IPNet.Contains of an address of as many bits as `bits` tells
unfoldable pub contains : IpNet → ℕ → ℕ → Bool
contains net bits ip = nat_eq net.bits bits && nat_eq (ip / size net) (net.base / size net)

unfoldable pub cidr_overlap : Option IpNet → Option IpNet → Bool
unfolding contains
cidr_overlap (some c) (some d) = contains c d.bits d.base || contains d c.bits c.base
cidr_overlap _ _ = false

-- the address is in the range
abbrev pub In : ℕ → ℕ → IpNet → Type 0
In bits ip net = contains net bits ip ≡ true

pow_add : (a k : ℕ) → 2 ^ (a + k) ≡ 2 ^ a * 2 ^ k
pow_add a zero = ap (λ n. 2 ^ n) (add-zero a) ∙ omega arith
pow_add a (suc k) =
    ap (λ n. 2 ^ n) (omega arith)
    ∙ pow-suc 2 (a + k)
    ∙ ap (λ n. n * 2) (pow_add a k)
    ∙ mul_assoc (2 ^ a) (2 ^ k) 2
    ∙ ap (λ n. 2 ^ a * n) (sym (pow-suc 2 k))

-- of two powers of two the lower one divides the other
powers_divide : (a b : ℕ) → ((r : ℕ) × (2 ^ b ≡ 2 ^ a * r)) ⊎ ((r : ℕ) × (2 ^ a ≡ 2 ^ b * r))
powers_divide a b = elim (Bool-cases (leb a b)) [
  | inl h ↦ inl (2 ^ (b - a), ap (λ n. 2 ^ n) (ground arith) ∙ pow_add a (b - a))
  | inr h ↦ inr (2 ^ (a - b), ap (λ n. 2 ^ n) (ground arith) ∙ pow_add b (a - b))
]

-- a block that is made of smaller blocks is the same for all addresses of one of those
same_block : (x y s t r : ℕ) → t ≡ s * r → x / s ≡ y / s → x / t ≡ y / t
same_block x y s t r e h =
    ap (λ n. x / n) e
    ∙ sym (div-div-eq-div-mul x s r)
    ∙ ap (λ n. n / r) h
    ∙ div-div-eq-div-mul y s r
    ∙ ap (λ n. y / n) (sym e)

contains_iff :
    (net : IpNet) (bits ip : ℕ)
    → (contains net bits ip ≡ true) ↔ ((net.bits ≡ bits) × (ip / size net ≡ net.base / size net))
unfolding contains
contains_iff net bits ip = (λ h. (ground arith, ground arith), λ (h, k). ground arith)

either : (a b : Bool) → (a ≡ true) ⊎ (b ≡ true) → (a || b) ≡ true
either a b (inl h) = ground arith
either a b (inr h) = ground arith

-- Two address ranges overlap for the admission exactly where there is an address in both; ranges of addresses of different
-- lengths never do.
pub cidr_overlap_iff :
    (c d : IpNet)
    → (cidr_overlap (some c) (some d) ≡ true) ↔ ((ip : ℕ) × In c.bits ip c × In c.bits ip d)
unfolding cidr_overlap contains
cidr_overlap_iff c d = (
  λ h. elim (Bool-cases (contains c d.bits d.base)) [
    | inl k ↦
        let (b, e) = (contains_iff c d.bits d.base).0 k in
        (d.base, (contains_iff c _ _).1 (refl, e), (contains_iff d _ _).1 (sym b, refl))
    | inr k ↦
        let (b, e) = (contains_iff d c.bits c.base).0 (ground (arith, h, k)) in
        (c.base, (contains_iff c _ _).1 (refl, refl), (contains_iff d _ _).1 (b, e))
  ],
  λ (ip, h, k).
      let (b, e) = (contains_iff c c.bits ip).0 h in
      let (b', e') = (contains_iff d c.bits ip).0 k in
      elim (powers_divide (c.bits - c.prefix) (d.bits - d.prefix)) [
        | inl (r, q) ↦ either _ _ (
            inr (
              (contains_iff d c.bits c.base).1
                (b', same_block c.base ip (size c) (size d) r q (sym e) ∙ e')))
        | inr (r, q) ↦ either _ _ (
            inl (
              (contains_iff c d.bits d.base).1
                (sym b', same_block d.base ip (size d) (size c) r q (sym e') ∙ e)))
      ],
)
