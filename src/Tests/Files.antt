-- ===== src/Tests/Files.antt =====
-- Runs on a small directory: what is counted, managed and deleted.
use Prim.Native.String.{String}
use mathlib.Core.List.{Perm}
use autopiercam.Base.Bytes.{bytes}
use autopiercam.Upload.Store.FrameNames.{parse_generated_frame_filename}
use autopiercam.Base.{
  ℕ, ◌≤◌, ◌≡◌, refl, ◌↔◌, inr, true, false, Option, none, some, List, [], ◌∷◌, arith, min, u64_max,
  Result, ok, err, is_ok, IfOk, if◌then◌else◌, ◌==◌,
}
use autopiercam.Retention.Candidates.{RetentionCandidate, reclaimable_authorization}
use autopiercam.Retention.Files.{found, not_found}
use autopiercam.Retention.Files.Private.{
  file, directory, end, entry, private_bytes, add_private, count, count_node, count_entries,
  is_private_name,
}
use autopiercam.Retention.Files.Private.Total.{
  Entries, private_size, private_paths, are_countable, private_bytes_lem,
}
use autopiercam.Retention.Files.Inventory.{DirEntry, inventory_capture_directory}
use autopiercam.Retention.Files.Inventory.Laws.{
  all_managed, IsSortedByPath, inventory_capture_directory_lem,
}
use autopiercam.Retention.Files.Deleter.{OpenFile, delete_exact}
use autopiercam.Retention.Files.Deleter as Deleter
use autopiercam.Retention.Files.Deleter.Laws.{IsIdentified, delete_exact_iff}
use autopiercam.Retention.Sweep.{sweep_retention}
use autopiercam.Retention.Sweep.Deletions.{MayDelete}
use autopiercam.Retention.System.{System, local_only, environment}
use autopiercam.Retention.System.Laws.{local_only_keeps}
use autopiercam.Tests.Retention.{number_paths}
use autopiercam.Tests.Sweep.{quota}

abbrev private_entries : Entries
private_entries =
    ok ("frame-1.jpg", file 40)
    ∷ ok (".autopiercam-timelapse", directory (entry (file 3) (entry (file 4) end)))
    ∷ ok (".frame-2.partial", file 5)
    ∷ []

private_runs : private_bytes (ok private_entries) ≡ ok 12
unfolding private_bytes add_private count count_node count_entries is_private_name
private_runs = refl

private_bytes_lem_example :
    IfOk
      (λ b.
        (b ≡ min (private_size private_entries) u64_max)
        × (are_countable private_entries ≡ true)
        × (private_paths private_entries ≤ 100000))
      (private_bytes (ok private_entries))
    × (are_countable private_entries ≡ true
        → private_paths private_entries ≤ 100000
        → is_ok (private_bytes (ok private_entries)) ≡ true)
private_bytes_lem_example = private_bytes_lem private_entries

abbrev parse : String → Option ℕ
parse name = parse_generated_frame_filename (bytes name)

abbrev listed : ℕ → String → DirEntry ℕ
listed path name = record {
  path = path;
  file_name = some name;
  is_file = found true;
  metadata = found (record { is_file = true; reparse = false; len = 70 });
}

abbrev listing : List (Result (DirEntry ℕ))
listing =
    ok (listed 2 "frame-1-002-000007.jpg")
    ∷ ok (listed 3 "notes.txt")
    ∷ ok (listed 1 "frame-0-100-000001.jpg")
    ∷ []

inventory_capture_directory_lem_example :
    IfOk
      (λ xs. Perm xs (all_managed parse listing) × IsSortedByPath xs)
      (inventory_capture_directory parse (ok listing))
inventory_capture_directory_lem_example = inventory_capture_directory_lem parse listing

abbrev target : RetentionCandidate ℕ
target = record {
  path = 1;
  captured_at_unix_ms = 100;
  file_size_bytes = 70;
  authorization = reclaimable_authorization (some 70) none;
}

abbrev opened : OpenFile
opened = record {
  metadata = ok (record { is_file = true; reparse = false; len = 70 });
  reads = [];
  set_disposition = ok tt;
}

delete_exact_iff_example :
    ((delete_exact (λ bytes. []) target target.authorization (found opened) ≡ inr Deleter.deleted)
      ↔ ((f : OpenFile) × (found opened ≡ found f)
          × IsIdentified (λ bytes. []) target f target.authorization))
    × ((delete_exact (λ bytes. []) target target.authorization (found opened)
          ≡ inr Deleter.already_absent)
        ↔ (found opened ≡ not_found))
delete_exact_iff_example = delete_exact_iff (λ bytes. []) target target.authorization (found opened)

-- The world is the list of the removed paths.
abbrev sys : System ℕ (List ℕ)
sys = record {
  now_unix_ms = λ w. ok 1000;
  available_bytes = λ w. err "not supported";
  read_dir = λ w. ok listing;
  read_private = λ w. ok private_entries;
  protected_outputs = λ w now. ok [];
  open_file = λ w path. if path == 1 then found opened else not_found;
  remove = λ w path. path ∷ w;
  sha256 = λ bytes. [];
  describe = λ e. "error";
  directory = "captures";
  display = λ path. "file";
}

-- Only file 1 is ever removed.
abbrev OnlyFirst : List ℕ → Type 0
OnlyFirst [] = Unit
OnlyFirst (path ∷ rest) = ((path == 1) ≡ true) × OnlyFirst rest

removal-OnlyFirst :
    (v : List ℕ) (c : RetentionCandidate ℕ) (f : OpenFile)
    → MayDelete (environment sys (local_only sys.describe)) [] c
    → sys.open_file v c.path ≡ found f
    → IsIdentified sys.sha256 c f c.authorization
    → OnlyFirst v
    → OnlyFirst (c.path ∷ v)
removal-OnlyFirst v c f m e i h = (ground (arith, e), h)

local_only_keeps_example :
    OnlyFirst (sweep_retention (environment sys (local_only sys.describe)) quota []).0
local_only_keeps_example = local_only_keeps sys quota [] OnlyFirst removal-OnlyFirst tt
