-- ===== src/Retention/Policy.antt =====
-- The retention policy, and the two tests of its byte quotas.
use autopiercam.Base.{
  ℕ, Bool, true, not, ◌&&◌, ◌||◌, Option, none, some, leb, ◌==◌, if◌then◌else◌, is_some,
  is_some_and, is_none_or, saturating_mul,
}

abbrev pub millis_per_day : ℕ
millis_per_day = 86400000

-- The fields of `CaptureConfig` that retention reads.
pub record CaptureConfig : Type 0 where
  pub retention_days : ℕ
  pub retention_max_bytes : Option ℕ
  pub retention_min_free_bytes : Option ℕ
  pub keep_latest : Bool

pub record RetentionPolicy : Type 0 where
  pub max_age_ms : Option ℕ
  pub max_managed_bytes : Option ℕ
  pub min_free_bytes : Option ℕ
  pub keep_latest : Bool

unfoldable pub from_capture_config : CaptureConfig → RetentionPolicy
from_capture_config config = record {
  max_age_ms =
      if not (config.retention_days == 0)
      then some (saturating_mul config.retention_days millis_per_day)
      else none;
  max_managed_bytes = config.retention_max_bytes;
  min_free_bytes = config.retention_min_free_bytes;
  keep_latest = config.keep_latest;
}

unfoldable pub has_byte_quota : RetentionPolicy → Bool
has_byte_quota policy = is_some policy.max_managed_bytes || is_some policy.min_free_bytes

unfoldable pub is_enabled : RetentionPolicy → Bool
unfolding has_byte_quota
is_enabled policy = is_some policy.max_age_ms || has_byte_quota policy

unfoldable pub needs_free_space : RetentionPolicy → Bool
needs_free_space policy = is_some policy.min_free_bytes

unfoldable pub quotas_satisfied : RetentionPolicy → ℕ → Option ℕ → Bool
quotas_satisfied policy projected_managed_bytes projected_free_bytes =
    is_none_or policy.max_managed_bytes (λ maximum. leb projected_managed_bytes maximum)
    && is_none_or policy.min_free_bytes
        (λ minimum. is_some_and projected_free_bytes (λ free. leb minimum free))

-- The `match` of `known_quotas_satisfied`: a failed probe counts as satisfied here.
abbrev known_free : Option ℕ → Option ℕ → Bool
known_free (some minimum) (some free) = leb minimum free
known_free (some minimum) none = true
known_free none free = true

unfoldable pub known_quotas_satisfied : RetentionPolicy → ℕ → Option ℕ → Bool
known_quotas_satisfied policy projected_managed_bytes projected_free_bytes =
    is_none_or policy.max_managed_bytes (λ maximum. leb projected_managed_bytes maximum)
    && known_free policy.min_free_bytes projected_free_bytes
