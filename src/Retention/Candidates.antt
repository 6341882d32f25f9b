-- ===== src/Retention/Candidates.antt =====
-- Managed artifacts, their authorization, and the order in which the planner reads them.
use autopiercam.Base.{
  ℕ, ◌≡◌, Bool, true, false, ◌&&◌, ◌||◌, Option, none, List, [], ◌∷◌, ltb, ◌==◌, if◌then◌else◌,
}

-- The total order of `PathBuf` (`Ord for Path`), which the sort takes for its ties.
pub record PathOrder (P : Type 0) : Type 0 where
  pub le : P → P → Bool
  pub le_total : (a b : P) → le a b ≡ false → le b a ≡ true
  pub le_trans : (a b c : P) → le a b ≡ true → le b c ≡ true → le a c ≡ true
  pub le_antisymm : (a b : P) → le a b ≡ true → le b a ≡ true → a ≡ b

pub data RetentionClassification : Type 0 where
  reclaimable protected : RetentionClassification

-- A SHA-256 digest is the list of its bytes.
pub record RetentionAuthorization : Type 0 where
  pub classification : RetentionClassification
  pub expected_file_size_bytes : Option ℕ
  pub expected_sha256 : Option (List ℕ)

abbrev pub protected_authorization : RetentionAuthorization
protected_authorization = record {
  classification = protected;
  expected_file_size_bytes = none;
  expected_sha256 = none;
}

abbrev pub reclaimable_authorization : Option ℕ → Option (List ℕ) → RetentionAuthorization
reclaimable_authorization expected_file_size_bytes expected_sha256 = record {
  classification = reclaimable;
  expected_file_size_bytes = expected_file_size_bytes;
  expected_sha256 = expected_sha256;
}

abbrev is_reclaimable_classification : RetentionClassification → Bool
is_reclaimable_classification reclaimable = true
is_reclaimable_classification protected = false

abbrev pub authorizes : RetentionAuthorization → Bool
authorizes authorization = is_reclaimable_classification authorization.classification

module _ (P : Type 0) where
  pub record ManagedArtifact : Type 0 where
    pub path : P
    pub captured_at_unix_ms : ℕ
    pub file_size_bytes : ℕ

  pub record RetentionCandidate : Type 0 where
    pub path : P
    pub captured_at_unix_ms : ℕ
    pub file_size_bytes : ℕ
    pub authorization : RetentionAuthorization

module _ {P : Type 0} where
  abbrev pub is_reclaimable : RetentionCandidate P → Bool
  is_reclaimable candidate = authorizes candidate.authorization

  unfoldable pub protect : RetentionCandidate P → RetentionCandidate P
  protect candidate = record candidate { authorization = protected_authorization }

  -- `candidates.last_mut()`, protected if there is one.
  unfoldable pub protect_last : List (RetentionCandidate P) → List (RetentionCandidate P)
  unfolding protect
  protect_last [] = []
  protect_last (c ∷ []) = protect c ∷ []
  protect_last (c ∷ d ∷ rest) = c ∷ protect_last (d ∷ rest)

module _ {P : Type 0} ⦃order : PathOrder P⦄ where
  -- The comparison of `sort_by`: by capture time, then by path.
  unfoldable pub candidate_le : RetentionCandidate P → RetentionCandidate P → Bool
  candidate_le left right =
      ltb left.captured_at_unix_ms right.captured_at_unix_ms
      || (left.captured_at_unix_ms == right.captured_at_unix_ms && order.le left.path right.path)

  unfoldable pub insert_candidate :
      RetentionCandidate P → List (RetentionCandidate P) → List (RetentionCandidate P)
  unfolding candidate_le
  insert_candidate c [] = c ∷ []
  insert_candidate c (d ∷ rest) =
      if candidate_le c d then c ∷ d ∷ rest else d ∷ insert_candidate c rest

  -- The stable `sort_by`: of two equal entries the one given first stays first.
  unfoldable pub sort_candidates : List (RetentionCandidate P) → List (RetentionCandidate P)
  unfolding insert_candidate
  sort_candidates [] = []
  sort_candidates (c ∷ rest) = insert_candidate c (sort_candidates rest)
