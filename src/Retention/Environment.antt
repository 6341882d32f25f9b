-- ===== src/Retention/Environment.antt =====
-- What a sweep meets: the traits of retention.rs over a world, and what it reports.
use Prim.Native.String.{String}
use autopiercam.Base.{ℕ, Bool, Option, some, List, if◌then◌else◌, Result}
use autopiercam.Retention.Policy.{RetentionPolicy, has_byte_quota}
use autopiercam.Retention.Candidates.{ManagedArtifact, RetentionAuthorization, RetentionCandidate}
use autopiercam.Retention.Errors.{bounded_error_message}

pub data RetentionDeletionOutcome : Type 0 where
  deleted already_absent protected : RetentionDeletionOutcome

-- `RetentionClock`, `RetentionPlatform` and `RetentionAuthority`, and the reads of the capture
-- directory. An error is its message.
pub record Environment (P W : Type 0) : Type 0 where
  pub now_unix_ms : W → Result ℕ
  pub available_bytes : W → Result ℕ
  pub inventory : W → Result (List (ManagedArtifact P))
  pub classify_inventory : W → List (ManagedArtifact P) → Result (List RetentionAuthorization)
  pub protected_outputs : W → ℕ → Result (List P)
  pub private_bytes : W → Result ℕ
  pub delete_if_still_authorized : W → RetentionCandidate P → W × Result RetentionDeletionOutcome
  pub directory : String
  pub display : P → String

pub data RetentionPressure : Type 0 where
  fine cleanup_needed blocked : RetentionPressure

pub record RetentionTelemetry : Type 0 where
  pub swept_at_unix_ms : ℕ
  pub managed_bytes : ℕ
  pub protected_bytes : ℕ
  pub reclaimable_bytes : ℕ
  pub free_bytes : Option ℕ
  pub reclaimed_file_count : ℕ
  pub reclaimed_bytes : ℕ
  pub blocked_pressure : Bool
  pub pressure : RetentionPressure
  pub error : Option String

unfoldable pub failed : ℕ → RetentionPolicy → Option ℕ → String → RetentionTelemetry
failed swept_at_unix_ms policy free_bytes error = record {
  swept_at_unix_ms = swept_at_unix_ms;
  managed_bytes = 0;
  protected_bytes = 0;
  reclaimable_bytes = 0;
  free_bytes = free_bytes;
  reclaimed_file_count = 0;
  reclaimed_bytes = 0;
  blocked_pressure = has_byte_quota policy;
  pressure = if has_byte_quota policy then blocked else cleanup_needed;
  error = some (bounded_error_message error);
}

module _ (P : Type 0) where
  -- What a sweep knows before it plans.
  pub record Survey : Type 0 where
    pub scheduled : List P
    pub classified : List (ManagedArtifact P × RetentionAuthorization)
    pub private_bytes : ℕ
