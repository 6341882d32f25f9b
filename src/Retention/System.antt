-- ===== src/Retention/System.antt =====
-- The environment of a sweep, put together from the platform and an authority: the two authorities
-- that need no ledger.
pub mod Laws
use Prim.Native.String.{String}
use autopiercam.Base.{ℕ, ◌⊎◌, inl, inr, Option, none, some, List, [], ◌∷◌, map, Result, ok, err}
use autopiercam.Base.Bytes.{bytes}
use autopiercam.Upload.Store.FrameNames.{parse_generated_frame_filename}
use autopiercam.Retention.Candidates.{
  PathOrder, ManagedArtifact, RetentionAuthorization, protected_authorization,
  reclaimable_authorization, RetentionCandidate,
}
use autopiercam.Retention.Files.{Probe}
use autopiercam.Retention.Files.Private.{Node, private_bytes}
use autopiercam.Retention.Files.Inventory.{DirEntry, inventory_capture_directory}
use autopiercam.Retention.Files.Deleter.{
  ExactDeleteOutcome, RetentionDeleteError, OpenFile, DeleteResult, delete_exact,
}
use autopiercam.Retention.Files.Deleter as Deleter
use autopiercam.Retention.Environment.{
  Environment, RetentionDeletionOutcome, deleted, already_absent, protected,
}

-- The operating system and the rest of the agent, as a sweep uses them. `remove` is what an accepted
-- deletion does, `protected_outputs` what the movies need, and `describe` the text of an error.
pub record System (P W : Type 0) : Type 0 where
  pub now_unix_ms : W → Result ℕ
  pub available_bytes : W → Result ℕ
  pub read_dir : W → Result (List (Result (DirEntry P)))
  pub read_private : W → Result (List (Result (String × Node)))
  pub protected_outputs : W → ℕ → Result (List P)
  pub open_file : W → P → Probe OpenFile
  pub remove : W → P → W
  pub sha256 : List ℕ → List ℕ
  pub describe : RetentionDeleteError P → String
  pub directory : String
  pub display : P → String

-- The name of a capture (crates/autopiercam/src/upload.rs). Only ASCII names are names of captures.
abbrev parse_generated_capture_filename : String → Option ℕ
parse_generated_capture_filename name = parse_generated_frame_filename (bytes name)

module _ (P W : Type 0) where
  -- `RetentionPlatform::delete_exact`.
  abbrev pub ExactDelete : Type 0
  ExactDelete = W → RetentionCandidate P → RetentionAuthorization → W × DeleteResult P

  pub record RetentionAuthority : Type 0 where
    pub classify_inventory : W → List (ManagedArtifact P) → Result (List RetentionAuthorization)
    pub delete_if_still_authorized :
        ExactDelete → W → RetentionCandidate P → W × Result RetentionDeletionOutcome

module _ {P : Type 0} where
  -- The mapping of the outcome and of the error.
  unfoldable pub local_outcome :
      (RetentionDeleteError P → String) → DeleteResult P → Result RetentionDeletionOutcome
  local_outcome describe (inr Deleter.deleted) = ok deleted
  local_outcome describe (inr Deleter.already_absent) = ok already_absent
  local_outcome describe (inl error) = err (describe error)

module _ {P W : Type 0} where
  unfoldable pub after_delete : System P W → W → P → DeleteResult P → W
  after_delete sys w path (inr Deleter.deleted) = sys.remove w path
  after_delete sys w path (inr Deleter.already_absent) = w
  after_delete sys w path (inl error) = w

  unfoldable pub system_delete_exact : System P W → ExactDelete P W
  system_delete_exact sys w c expectation =
      let r : DeleteResult P = delete_exact sys.sha256 c expectation (sys.open_file w c.path) in
      (after_delete sys w c.path r, r)

  unfoldable pub protect_all : RetentionAuthority P W
  protect_all = record {
    classify_inventory = λ w inventory. ok (map (λ artifact. protected_authorization) inventory);
    delete_if_still_authorized = λ delete w c. (w, ok protected);
  }

  unfoldable pub local_delete :
      (RetentionDeleteError P → String)
      → ExactDelete P W
      → W
      → RetentionCandidate P
      → W × Result RetentionDeletionOutcome
  local_delete describe delete w c =
      let (v, r) = delete w c c.authorization in (v, local_outcome describe r)

  unfoldable pub local_only : (RetentionDeleteError P → String) → RetentionAuthority P W
  local_only describe = record {
    classify_inventory = λ w inventory. ok (
        map (λ artifact. reclaimable_authorization (some artifact.file_size_bytes) none) inventory);
    delete_if_still_authorized = local_delete describe;
  }

  unfoldable pub environment :
      ⦃order : PathOrder P⦄ → System P W → RetentionAuthority P W → Environment P W
  environment sys authority = record {
    now_unix_ms = sys.now_unix_ms;
    available_bytes = sys.available_bytes;
    inventory = λ w. inventory_capture_directory parse_generated_capture_filename (sys.read_dir w);
    classify_inventory = authority.classify_inventory;
    protected_outputs = sys.protected_outputs;
    private_bytes = λ w. private_bytes (sys.read_private w);
    delete_if_still_authorized = authority.delete_if_still_authorized (system_delete_exact sys);
    directory = sys.directory;
    display = sys.display;
  }
