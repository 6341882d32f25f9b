-- ===== src/Upload/Store/Errors.antt =====
-- UploadStoreError, and the results of the store's methods. The causes that the variants of the
-- source carry for a report are left out where nothing reads them.
use autopiercam.Base.{ℕ, ◌≡◌, refl, Bool, true, false, Option, none, some, leb, if◌then◌else◌}
use autopiercam.Base.Bytes.{Bytes}

pub data UploadStoreError : Type 0 where
  sqlite : UploadStoreError
  io : UploadStoreError
  invalid_schema : UploadStoreError
  authorization_identity_mismatch : UploadStoreError
  artifact_path_not_absolute : UploadStoreError
  artifact_path_not_utf8 : UploadStoreError
  artifact_outside_capture_root : UploadStoreError
  artifact_is_symlink : UploadStoreError
  artifact_not_regular_file : UploadStoreError
  invalid_artifact_filename : UploadStoreError
  artifact_identity_conflict : UploadStoreError
  timestamp_out_of_range : ℕ → UploadStoreError
  artifact_size_out_of_range : ℕ → UploadStoreError
  corrupt_integer : UploadStoreError
  corrupt_state : Bytes → UploadStoreError
  corrupt_artifact_identity : ℕ → UploadStoreError
  upload_job_delivery_binding_mismatch : ℕ → UploadStoreError
  invalid_job_id : ℕ → UploadStoreError
  invalid_transition : ℕ → UploadStoreError
  attempt_count_overflow : ℕ → UploadStoreError
  reconcile_count_overflow : UploadStoreError
  invalid_list_page_size : UploadStoreError
  invalid_list_cursor : UploadStoreError
  stale_list_cursor : UploadStoreError
  list_cursor_parameters_mismatch : UploadStoreError
  duplicate_list_state_filter : UploadStoreError
  requeue_ledger_mismatch : UploadStoreError
  requeue_job_not_found : UploadStoreError
  requeue_wrong_state : UploadStoreError
  requeue_stale_job_revision : UploadStoreError
  requeue_delivery_binding_mismatch : UploadStoreError
  requeue_artifact_unavailable : UploadStoreError
  requeue_artifact_changed : UploadStoreError
  job_revision_overflow : ℕ → UploadStoreError
  requeue_count_overflow : ℕ → UploadStoreError
  corrupt_preactivation_artifact : UploadStoreError

pub data Result {ℓ} (A : Type ℓ) : Type ℓ where
  ok : A → Result A
  err : UploadStoreError → Result A

-- What `?` does with the rest of a function.
infixl 20 ◌>>=◌ ◌>>◌
abbrev pub ◌>>=◌ {ℓ κ} : {A : Type ℓ} {B : Type κ} → Result A → (A → Result B) → Result B
ok a >>= rest = rest a
err e >>= rest = err e

abbrev pub ◌>>◌ {κ} : {B : Type κ} → Result (Unit {0}) → Result B → Result B
r >> rest = r >>= λ _. rest

-- `if !holds { return Err(e) }`
abbrev pub ensure : Bool → UploadStoreError → Result (Unit {0})
ensure holds e = elim holds [ true ↦ ok tt | false ↦ err e ]

-- `option.ok_or(e)`
abbrev pub ok_or {ℓ} : {A : Type ℓ} → Option A → UploadStoreError → Result A
ok_or none e = err e
ok_or (some a) e = ok a

-- A predicate on the value of a success.
abbrev pub IfOk {ℓ κ} : {A : Type ℓ} → (A → Type κ) → Result A → Type κ
IfOk P (ok a) = P a
IfOk P (err e) = Unit

-- What is known of the first part of a chain is known of its rest.
pub IfOk-bind {ℓ κ μ ν} :
    {A : Type ℓ} {B : Type κ} (P : A → Type μ) (Q : B → Type ν) (r : Result A) (f : A → Result B)
    → IfOk P r
    → ((a : A) → P a → IfOk Q (f a))
    → IfOk Q (r >>= f)
IfOk-bind P Q (ok a) f p q = q a p
IfOk-bind P Q (err e) f p q = tt

-- The rest of a chain, whatever its first part returns.
pub IfOk-then {ℓ κ ν} :
    {A : Type ℓ} {B : Type κ} (Q : B → Type ν) (r : Result A) (f : A → Result B)
    → ((a : A) → IfOk Q (f a))
    → IfOk Q (r >>= f)
IfOk-then Q (ok a) f q = q a
IfOk-then Q (err e) f q = tt

abbrev pub i64_max : ℕ
i64_max = 9223372036854775807

unfoldable pub unix_ms_to_database : ℕ → Result ℕ
unix_ms_to_database value =
    if leb value i64_max then ok value else err (timestamp_out_of_range value)

-- The same, where the rest may use what the first part returned.
pub IfOk-known {ℓ κ ν} :
    {A : Type ℓ} {B : Type κ} (Q : B → Type ν) (r : Result A) (f : A → Result B)
    → ((a : A) → r ≡ ok a → IfOk Q (f a))
    → IfOk Q (r >>= f)
IfOk-known Q (ok a) f q = q a refl
IfOk-known Q (err e) f q = tt

-- A check that was passed.
pub IfOk-ensure {ν} :
    {B : Type 0} (Q : B → Type ν) (b : Bool) (e : UploadStoreError) (r : Result B)
    → (b ≡ true → IfOk Q r)
    → IfOk Q (ensure b e >> r)
IfOk-ensure Q true e r q = q refl
IfOk-ensure Q false e r q = tt

-- What does not depend on the value.
pub IfOk-const {ℓ ν} : {A : Type ℓ} {Q : Type ν} (r : Result A) → Q → IfOk (λ _. Q) r
IfOk-const (ok a) q = q
IfOk-const (err e) q = tt

pub IfOk-map {ℓ κ ν} :
    {A : Type ℓ} (P : A → Type κ) (Q : A → Type ν) (r : Result A)
    → IfOk P r
    → ((a : A) → P a → Q a)
    → IfOk Q r
IfOk-map P Q (ok a) p f = f a p
IfOk-map P Q (err e) p f = tt
