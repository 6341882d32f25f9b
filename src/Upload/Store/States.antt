-- ===== src/Upload/Store/States.antt =====
-- UploadState: its text in the database, and the codes of the list cursor and of the state filter.
use autopiercam.Base.{ℕ, ◌-◌, ◌^◌, ◌≡◌, refl, Bool, true, ◌==◌, if◌then◌else◌, arith}
use autopiercam.Base.Bytes.{Bytes, bytes, bytes_eq}
use autopiercam.Upload.Store.Errors.{Result, ok, err, corrupt_state}

pub data UploadState : Type 0 where
  pending : UploadState
  in_progress : UploadState
  retrying : UploadState
  completed : UploadState
  permanently_failed : UploadState

abbrev pub cursor_code : UploadState → ℕ
cursor_code pending = 1
cursor_code in_progress = 2
cursor_code retrying = 3
cursor_code completed = 4
cursor_code permanently_failed = 5

abbrev pub filter_bit : UploadState → ℕ
filter_bit state = 2 ^ (cursor_code state - 1)

abbrev pub state_eq : UploadState → UploadState → Bool
state_eq a b = cursor_code a == cursor_code b

unfoldable pub from_database : Bytes → Result UploadState
unfolding bytes_eq
from_database value =
    if bytes_eq value (bytes "pending")
    then ok pending
    else if bytes_eq value (bytes "in_progress")
    then ok in_progress
    else if bytes_eq value (bytes "retrying")
    then ok retrying
    else if bytes_eq value (bytes "completed")
    then ok completed
    else if bytes_eq value (bytes "permanently_failed")
    then ok permanently_failed
    else err (corrupt_state value)

-- The texts that the table's CHECK on its column `state` allows.
abbrev pub state_text : UploadState → Bytes
state_text pending = bytes "pending"
state_text in_progress = bytes "in_progress"
state_text retrying = bytes "retrying"
state_text completed = bytes "completed"
state_text permanently_failed = bytes "permanently_failed"

-- Each of these texts is read back.
pub from_database-state_text : (s : UploadState) → from_database (state_text s) ≡ ok s
unfolding from_database
from_database-state_text pending = refl
from_database-state_text in_progress = refl
from_database-state_text retrying = refl
from_database-state_text completed = refl
from_database-state_text permanently_failed = refl

pub state_eq→eq : (a b : UploadState) → state_eq a b ≡ true → a ≡ b
state_eq→eq a b h = ground arith
