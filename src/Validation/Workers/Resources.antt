-- ===== src/Validation/Workers/Resources.antt =====
-- What ValidateWorkerConfig accepts.
use gardener_extension_provi.Common.{
  ℕ, ◌+◌, ◌*◌, ◌%◌, ◌/◌, ◌≤◌, ◌<◌, ◌≡◌, ◌↔◌, ℤ, pos, has_remainder, false, Option, none, some, [],
  ◌∷◌, is_empty, All, arith, if◌then◌else◌,
}
use gardener_extension_provi.Validation.{FieldPath, child_of, key_of, invalid, ErrorList}
use gardener_extension_provi.Validation.Accepted.{
  append_nil_iff, fails_if_iff, is_empty_iff, iff_pair,
}
use gardener_extension_provi.Validation.Workers.{
  Quantity, ResourceList, NodeTemplate, validate_non_negative, validate_whole_number,
  validate_resource_list, validate_virtual_resource_list, validate_worker_config,
}

abbrev pub IsNonNegative : Quantity → Type 0
IsNonNegative q = q.negative ≡ false

-- the amount is a whole number, or lies less than a thousandth below one
abbrev pub IsNearlyWhole : Quantity → Type 0
IsNearlyWhole q = (n : ℕ) × (q.nanos ≤ n * 1000000000) × (n * 1000000000 < q.nanos + 1000000)

-- its thousandths fit an int64
abbrev pub FitsMilli : Quantity → Type 0
FitsMilli q = q.nanos ≤ 9223372036854775807 * 1000000

-- What the package documents of MilliValue: it is ceil(q * 1000), where that does not overflow.
abbrev pub RoundsUp : (Quantity → ℤ) → Type 0
RoundsUp milli_value =
    (q : Quantity)
    → IsNonNegative q
    → FitsMilli q
    → (m : ℕ) × (milli_value q ≡ pos m)
      × (q.nanos ≤ m * 1000000)
      × (m * 1000000 < q.nanos + 1000000)

-- no template, or one with resources that are not negative, and with virtual resources that are nearly whole as well
abbrev pub HasSoundTemplate : Option (Option NodeTemplate) → Type 0
HasSoundTemplate (some (some t)) =
    All (λ r. IsNonNegative r.1) t.capacity
    × All (λ r. IsNonNegative r.1 × IsNearlyWhole r.1) t.virtual_capacity
HasSoundTemplate _ = Unit

abbrev pub VirtualFits : Option (Option NodeTemplate) → Type 0
VirtualFits (some (some t)) = All (λ r. FitsMilli r.1) t.virtual_capacity
VirtualFits _ = Unit

IsNonNegative-iff :
    (q : Quantity) (path : FieldPath) → (validate_non_negative q path ≡ []) ↔ IsNonNegative q
unfolding validate_non_negative
IsNonNegative-iff q path = fails_if_iff q.negative _

remainder_iff : (m : ℕ) → (has_remainder (pos m) 1000 ≡ false) ↔ (m % 1000 ≡ 0)
remainder_iff m = ground arith

-- whole thousands of thousandths, for an amount between one thousandth less and the amount
thousands_iff :
    (nanos m : ℕ)
    → nanos ≤ m * 1000000
    → m * 1000000 < nanos + 1000000
    → (m % 1000 ≡ 0) ↔ ((n : ℕ) × (nanos ≤ n * 1000000000) × (n * 1000000000 < nanos + 1000000))
thousands_iff nanos m low high =
    (λ e. (m / 1000, omega arith, omega arith), λ (n, below, above). omega arith)

resources_iff :
    (rs : ResourceList) (path : FieldPath)
    → (validate_resource_list rs path ≡ []) ↔ All (λ r. IsNonNegative r.1) rs
unfolding validate_resource_list
resources_iff [] path = ground arith
resources_iff ((k, q) ∷ rs) path = ground (
  arith,
  append_nil_iff (validate_non_negative q (key_of path k)) (validate_resource_list rs path),
  IsNonNegative-iff q (key_of path k),
  resources_iff rs path,
)

module _ (milli_value : Quantity → ℤ) (rounds_up : RoundsUp milli_value) where
  IsNearlyWhole-iff :
      (q : Quantity) (path : FieldPath)
      → IsNonNegative q
      → FitsMilli q
      → (validate_whole_number milli_value q path ≡ []) ↔ IsNearlyWhole q
  unfolding validate_whole_number
  IsNearlyWhole-iff q path sign fits =
      let (m, e, low, high) = rounds_up q sign fits in
      let r =
        fails_if_iff (has_remainder (pos m) 1000) (invalid path q.text "must be a whole number") in
      let s = remainder_iff m in
      let t = thousands_iff q.nanos m low high in
      rw e (λ h. t.0 (s.0 (r.0 h)), λ h. r.1 (s.1 (t.1 h)))

  -- the checks of one virtual resource
  unfoldable virtual_errors : Quantity → FieldPath → ErrorList
  virtual_errors q path =
      if is_empty (validate_non_negative q path)
      then validate_whole_number milli_value q path
      else validate_non_negative q path

  virtual_errors_iff :
      (q : Quantity) (path : FieldPath)
      → FitsMilli q
      → (virtual_errors q path ≡ []) ↔ (IsNonNegative q × IsNearlyWhole q)
  unfolding virtual_errors
  virtual_errors_iff q path fits = ground (
    arith,
    is_empty_iff (validate_non_negative q path),
    IsNonNegative-iff q path,
    λ (sign : IsNonNegative q). IsNearlyWhole-iff q path sign fits,
  )

  virtual_resources_iff :
      (rs : ResourceList) (path : FieldPath)
      → All (λ r. FitsMilli r.1) rs
      → (validate_virtual_resource_list milli_value rs path ≡ [])
        ↔ All (λ r. IsNonNegative r.1 × IsNearlyWhole r.1) rs
  unfolding validate_virtual_resource_list virtual_errors
  virtual_resources_iff [] path fits = ground arith
  virtual_resources_iff ((k, q) ∷ rs) path (fit, fits) = ground (
    arith,
    append_nil_iff (virtual_errors q (key_of path k))
        (validate_virtual_resource_list milli_value rs path),
    virtual_errors_iff q (key_of path k) fit,
    virtual_resources_iff rs path fits,
  )

  -- ValidateWorkerConfig reports no error exactly where there is no node template, or one whose capacities are not
  -- negative and whose virtual capacities, besides, are whole numbers or lie less than a thousandth below one. Assumed are
  -- that MilliValue rounds up to thousandths, and that those of the virtual capacities fit an int64.
  pub validate_worker_config_iff :
      (c : Option (Option NodeTemplate)) (path : FieldPath)
      → VirtualFits c
      → (validate_worker_config milli_value c path ≡ []) ↔ HasSoundTemplate c
  unfolding validate_worker_config
  validate_worker_config_iff none path fits = ground arith
  validate_worker_config_iff (some none) path fits = ground arith
  validate_worker_config_iff (some (some t)) path fits =
      let p = child_of path "nodeTemplate" in
      iff_pair
        (append_nil_iff (validate_resource_list t.capacity (child_of p "capacity")) (
          validate_virtual_resource_list milli_value t.virtual_capacity
            (child_of p "virtualCapacity")))
        (resources_iff t.capacity (child_of p "capacity"))
        (virtual_resources_iff t.virtual_capacity (child_of p "virtualCapacity") fits)
