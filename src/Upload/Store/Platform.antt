-- ===== src/Upload/Store/Platform.antt =====
-- What the store takes from outside: SHA-256, the parts of a path, SQLite's choice of a row id, and
-- the file system.
use autopiercam.Base.{ℕ, Bool, Option, List}
use autopiercam.Base.Bytes.{Bytes}

pub record Platform : Type 0 where
  pub sha256 : Bytes → Bytes
  -- SQLite's choice of an id for a new row, where there are rows with these ids.
  pub new_rowid : List ℕ → Option ℕ
  pub is_absolute : Bytes → Bool
  pub parent : Bytes → Option Bytes
  pub file_name : Bytes → Option Bytes

-- What a system call returns; `io::ErrorKind::NotFound` is told from other errors.
pub data IoResult (A : Type 0) : Type 0 where
  found : A → IoResult A
  not_found : IoResult A
  io_error : IoResult A

pub data FileType : Type 0 where
  file : FileType
  symlink : FileType
  other : FileType

-- A file opened for reading: its metadata, the bytes that are read to its end, whether it can be
-- rewound, and its length after that. `none` stands for an error.
pub record OpenFile : Type 0 where
  pub metadata : Option (Bool × ℕ)
  pub contents : Option Bytes
  pub rewinds : Bool
  pub final_length : Option ℕ

pub record Disk : Type 0 where
  pub symlink_metadata : Bytes → IoResult FileType
  pub canonicalize : Bytes → IoResult Bytes
  pub open_for_read : Bytes → IoResult OpenFile
