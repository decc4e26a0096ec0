-- ===== src/Admission/BackupBucket/Immutable.antt =====
-- What the admission of a seed lets through of its backup configuration.
use gardener_extension_provi.Common.{
  ℤ, pos, negsuc, int_eq, both_true, ℕ, ◌≤◌, String, ◌≡◌, refl, sym, ap, ◌∙◌, Bool, true, false,
  not, ◌==◌, eq_iff, Option, none, some, arith, if◌then◌else◌,
}
use gardener_extension_provi.Failure.{errorf, Result, ok, err}
use gardener_extension_provi.Admission.{
  Verdict, granted, refused, failed, granted_inj, and_if_inv, or_failed,
}
use gardener_extension_provi.Admission.BackupBucket.{
  BackupBucketConfig, Seed, get_effective_retention_days, validate_checksum_settings, in_limits,
  invalid_days, days_eq, backup_config_eq, overridden, unless_overridden, one_is_nil,
  decoded_config, checked_config, compare_configs, compare_backups, backup_config, validate_seed,
  checked_value, days_or_default,
}

int_eq_sound : (a b : ℤ) → int_eq a b ≡ true → a ≡ b
int_eq_sound (pos m) (pos n) h = ap pos (ground arith)
int_eq_sound (negsuc m) (negsuc n) h = ap negsuc (ground arith)
int_eq_sound (pos m) (negsuc n) h = absurd (cc (h))
int_eq_sound (negsuc m) (pos n) h = absurd (cc (h))

negation_lifted : (b : Bool) → not b ≡ false → b ≡ true
negation_lifted true h = refl
negation_lifted false h = absurd (cc (h))

days_eq_sound : (a b : Option ℤ) → days_eq a b ≡ true → a ≡ b
days_eq_sound none none h = refl
days_eq_sound (some a) (some b) h = ap some (int_eq_sound a b h)
days_eq_sound none (some b) h = absurd (cc (h))
days_eq_sound (some a) none h = absurd (cc (h))

config_of : String → String → String → Option ℤ → BackupBucketConfig
config_of location request response days = record {
  dual_zone_bucket_location = location;
  request_checksum_calculation = request;
  response_checksum_validation = response;
  default_object_retention_days = days;
}

config_eq_sound : (c d : BackupBucketConfig) → backup_config_eq (some c) (some d) ≡ true → c ≡ d
unfolding backup_config_eq config_of
config_eq_sound c d h =
    let (h3, t) =
      both_true _ (days_eq c.default_object_retention_days d.default_object_retention_days) h in
    let (h2, r) =
      both_true _ (c.response_checksum_validation == d.response_checksum_validation) h3 in
    let (p, q) =
      both_true (c.dual_zone_bucket_location == d.dual_zone_bucket_location)
        (c.request_checksum_calculation == d.request_checksum_calculation) h2 in
    ap
      (λ l.
        config_of l c.request_checksum_calculation c.response_checksum_validation
          c.default_object_retention_days)
      ((eq_iff _ _).0 p)
    ∙ ap
        (λ s.
          config_of d.dual_zone_bucket_location s c.response_checksum_validation
            c.default_object_retention_days)
        ((eq_iff _ _).0 q)
    ∙ ap
        (λ s.
          config_of d.dual_zone_bucket_location d.request_checksum_calculation s
            c.default_object_retention_days)
        ((eq_iff _ _).0 r)
    ∙ ap
        (config_of d.dual_zone_bucket_location d.request_checksum_calculation
          d.response_checksum_validation)
        (days_eq_sound _ _ t)

-- the period in days that a configuration leads to is one that the bucket supports
abbrev pub InLimits : Option BackupBucketConfig → Type 0
InLimits c = (n : ℕ) × (get_effective_retention_days c ≡ pos n) × (n ≤ 36500)

limits_of_days :
    (d : Option ℤ) → in_limits d ≡ true → (n : ℕ) × (days_or_default d ≡ pos n) × (n ≤ 36500)
limits_of_days none h = (1, refl, omega arith)
limits_of_days (some (pos n)) h = (n, refl, ground arith)
limits_of_days (some (negsuc n)) h = absurd (cc (h))

settings-InLimits :
    (c : BackupBucketConfig) → validate_checksum_settings c ≡ granted tt → InLimits (some c)
unfolding validate_checksum_settings get_effective_retention_days
settings-InLimits c h =
    let (u, a, h1) = and_if_inv (checked_value c.request_checksum_calculation) _ tt h in
    let (v, b, h2) = and_if_inv (checked_value c.response_checksum_validation) _ tt h1 in
    limits_of_days c.default_object_retention_days (passed _ h2)
  where
    passed : (b : Bool) → (if b then granted tt else refused invalid_days) ≡ granted tt → b ≡ true
    passed true h = refl
    passed false h = absurd (cc (h))

not_overridden :
    (seed : Seed) (text : String)
    → overridden seed ≡ false
    → unless_overridden seed text ≡ granted tt
    → ⊥
not_overridden seed text o h = refused_is_not (overridden seed) o h
  where
    refused_is_not :
        (b : Bool)
        → b ≡ false
        → (if b then granted tt else refused (failed (errorf text))) ≡ granted tt
        → ⊥
    refused_is_not true e k = cc (e)
    refused_is_not false e k = cc (k)

-- three refusals in a row: none applies
none_applies :
    (a b c : Bool) (x y z : Verdict (Unit {0}))
    → (x ≡ granted tt → ⊥)
    → (y ≡ granted tt → ⊥)
    → (z ≡ granted tt → ⊥)
    → (if a then x else if b then y else if c then z else granted tt) ≡ granted tt
    → (b ≡ false) × (c ≡ false)
none_applies true b c x y z f g h k = absurd (f k)
none_applies false true c x y z f g h k = absurd (g k)
none_applies false false true x y z f g h k = absurd (h k)
none_applies false false false x y z f g h k = (refl, refl)

-- both backups have a configuration that decodes to the same, or neither has one
abbrev pub SameConfig :
    (String → Result BackupBucketConfig) → Option String → Option String → Type 0
SameConfig decode none none = Unit
SameConfig decode (some a) (some b) =
    (c : BackupBucketConfig) × (decode a ≡ ok c) × (decode b ≡ ok c) × InLimits (some c)
SameConfig decode _ _ = ⊥

module _ (decode : String → Result BackupBucketConfig) where
  or_failed_inv :
      (r : Result BackupBucketConfig) (c : BackupBucketConfig) → or_failed r ≡ granted c → r ≡ ok c
  or_failed_inv (ok d) c h = cc
  or_failed_inv (err e) c h = absurd (cc (h))

  decoded_inv :
      (raw : String) (c : Option BackupBucketConfig)
      → decoded_config decode (some raw) ≡ granted c
      → (d : BackupBucketConfig) × (decode raw ≡ ok d) × (c ≡ some d)
  decoded_inv raw c h =
      let (d, e, k) = and_if_inv (or_failed (decode raw)) _ c h in
      (d, or_failed_inv _ d e, sym (granted_inj k))

  checked_inv :
      (raw : String) (c : Option BackupBucketConfig)
      → checked_config decode (some raw) ≡ granted c
      → (d : BackupBucketConfig) × (decode raw ≡ ok d) × (c ≡ some d) × InLimits (some d)
  checked_inv raw c h =
      let (d, e, k) = and_if_inv (or_failed (decode raw)) _ c h in
      let (u, s, l) = and_if_inv (validate_checksum_settings d) _ c k in
      (d, or_failed_inv _ d e, sym (granted_inj l), settings-InLimits d s)

  compared :
      (seed : Seed) (n o : Option String) (c d : Option BackupBucketConfig)
      → overridden seed ≡ false
      → compare_configs decode seed n o c d ≡ granted tt
      → (one_is_nil n o ≡ false) × (not (backup_config_eq c d) ≡ false)
  compared seed n o c d f h =
      none_applies _ _ _ _ _ _ (not_overridden seed _ f) (not_overridden seed _ f)
        (not_overridden seed _ f) h

  same_configs :
      (seed : Seed) (n o : Option String) (c : Option BackupBucketConfig)
      → overridden seed ≡ false
      → checked_config decode n ≡ granted c
      → compare_backups decode seed (some n) (some o) c ≡ granted tt
      → SameConfig decode n o
  same_configs seed none none c f k h = tt
  same_configs seed (some a) none c f k h =
      let (d, e, l) = and_if_inv (decoded_config decode none) _ tt h in
      absurd (cc ((compared seed (some a) none c d f l).0))
  same_configs seed none (some b) c f k h =
      let (d, e, l) = and_if_inv (decoded_config decode (some b)) _ tt h in
      absurd (cc ((compared seed none (some b) c d f l).0))
  same_configs seed (some a) (some b) c f k h =
      let (d, e, l) = and_if_inv (decoded_config decode (some b)) _ tt h in
      let (x, p, q, r) = checked_inv a c k in
      let (y, s, t) = decoded_inv b d e in
      let same = config_eq_sound x y (equal_of q t (compared seed (some a) (some b) c d f l).1) in
      (x, p, s ∙ ap ok (sym same), r)
    where
      equal_of :
          {c d : Option BackupBucketConfig} {x y : BackupBucketConfig}
          → c ≡ some x
          → d ≡ some y
          → not (backup_config_eq c d) ≡ false
          → backup_config_eq (some x) (some y) ≡ true
      equal_of {c = c} {d} {x} {y} q t h = negation_lifted _ (rw (q, t) at h)

  -- The backup configuration of a seed stays as it is: where an update of a seed with a backup is admitted without the
  -- override annotation, the old and the new backup both have no configuration, or theirs decode to the same one; and the
  -- time for which it retains objects is between 0 and 36500 days.
  pub admitted_backup_is_unchanged :
      (new old : Seed) (n o : Option String)
      → new.backup ≡ some n
      → old.backup ≡ some o
      → overridden new ≡ false
      → validate_seed decode (some new) (some (some old)) ≡ granted tt
      → SameConfig decode n o
  unfolding validate_seed
  admitted_backup_is_unchanged new old n o p q f h =
      let (c, e, k) = and_if_inv (checked_config decode (backup_config decode new.backup)) _ tt h in
      same_configs new n o c f
        (sym (ap (λ b. checked_config decode (backup_config decode b)) p) ∙ e)
        (sym (
            ap (λ b. compare_backups decode new b old.backup c) p
            ∙ ap (λ b. compare_backups decode new (some n) b c) q)
          ∙ k)
