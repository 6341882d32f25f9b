-- ===== src/Retention/Files/Private.antt =====
-- `private_bytes`: recovery and working files are counted, and never deleted.
pub mod Laws
pub mod Total
use Prim.Native.String.{String}
use text.Mathlib.Text.{starts_with}
use autopiercam.Base.{
  ℕ, ◌+◌, ◌-◌, Bool, true, false, ◌&&◌, ◌||◌, List, [], ◌∷◌, ltb, ◌==◌, is_some, if◌then◌else◌,
  saturating_add, Result, ok, err, ◌>>=◌, ◌>>◌, guard,
}
use autopiercam.Base.Text.{str_eq, strip_suffix}

-- What a path turns out to be. A directory that is gone when it is read is `vanished`.
mutual
  pub data Node : Type 0 where
    missing : Node
    unreadable : String → Node
    linked : Node
    file : ℕ → Node
    special : Node
    vanished : Node
    closed : String → Node
    directory : Listing → Node

  pub data Listing : Type 0 where
    end : Listing
    entry : Node → Listing → Listing
    broken_entry : String → Listing → Listing

-- The bytes, and the paths that may still be counted.
abbrev pub Count : Type 0
Count = ℕ × ℕ

-- The first test of `count`, before the rest.
abbrev pub in_bounds : ℕ → ℕ → Result Count → Result Count
in_bounds depth remaining rest =
    if ltb 4 depth || (remaining == 0) then err "private video inventory exceeds bounds" else rest

-- The rest of `count`, with `remaining` lowered, and its loop.
unfoldable mutual
  pub count_node : Node → ℕ → ℕ → Result Count
  count_node missing depth remaining = ok (0, remaining)
  count_node (unreadable e) depth remaining = err e
  count_node linked depth remaining = err "linked private video storage"
  count_node (file size) depth remaining = ok (size, remaining)
  count_node special depth remaining = err "invalid private video storage"
  count_node vanished depth remaining = ok (0, remaining)
  count_node (closed e) depth remaining = err e
  count_node (directory entries) depth remaining = count_entries entries depth remaining 0

  pub count_entries : Listing → ℕ → ℕ → ℕ → Result Count
  count_entries end depth remaining bytes = ok (bytes, remaining)
  count_entries (broken_entry e rest) depth remaining bytes = err e
  count_entries (entry node rest) depth remaining bytes = do
    c ← in_bounds (depth + 1) remaining (count_node node (depth + 1) (remaining - 1))
    count_entries rest depth c.1 (saturating_add bytes c.0)

unfoldable pub count : Node → ℕ → ℕ → Result Count
count node depth remaining = in_bounds depth remaining (count_node node depth (remaining - 1))

unfoldable pub is_private_name : String → Bool
is_private_name name =
    str_eq name ".autopiercam-timelapse"
    || starts_with name ".autopiercam-video-"
    || (starts_with name ".frame-" && is_some (strip_suffix name ".partial"))

-- The loop over the capture directory.
unfoldable pub add_private : List (Result (String × Node)) → ℕ → ℕ → Result ℕ
add_private [] remaining bytes = ok bytes
add_private (err e ∷ rest) remaining bytes = err e
add_private (ok (name, node) ∷ rest) remaining bytes =
    let skipped : Result ℕ = add_private rest remaining bytes in
    if is_private_name name
    then (do c ← count node 0 remaining; add_private rest c.1 (saturating_add bytes c.0))
    else skipped

-- `read_dir`, and the bound on the paths.
unfoldable pub private_bytes : Result (List (Result (String × Node))) → Result ℕ
private_bytes entries = do list ← entries; add_private list 100000 0
