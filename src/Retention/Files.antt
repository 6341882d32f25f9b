-- ===== src/Retention/Files.antt =====
-- What a sweep reads of the capture directory, and how it deletes a file there.
pub mod Private
pub mod Inventory
pub mod Deleter
use autopiercam.Base.{ℕ, Bool}
use Prim.Native.String.{String}

-- A file operation: its value, `NotFound`, or another error with its text.
pub data Probe (A : Type 0) : Type 0 where
  found : A → Probe A
  not_found : Probe A
  broken : String → Probe A

-- `Metadata`: `reparse` is the attribute of that name on Windows, and false elsewhere.
pub record Metadata : Type 0 where
  pub is_file : Bool
  pub reparse : Bool
  pub len : ℕ
