-- ===== src/Retention/Files/Deleter/Laws.antt =====
-- A file is deleted exactly if the open handle shows the file that the ledger authorized.
use autopiercam.Base.{
  ℕ, ◌≡◌, refl, ap, ◌∙◌, ◌↔◌, inr, true, false, not, ◌||◌, Option, none, some, List, [], ◌∷◌, arith,
  ◌==◌, ==_iff, &&-true, if_split, IfSome, Result, ok, err,
}
use autopiercam.Retention.Candidates.{RetentionAuthorization, RetentionCandidate}
use autopiercam.Retention.Files.{Probe, found, not_found, broken, Metadata}
use autopiercam.Retention.Files.Deleter.{
  deleted, already_absent, DeleteResult, OpenFile, read_all, same_digest, dispose, compare_digest,
  check_digest, check_authorized_size, check_metadata, delete_exact,
}

same_digest→eq : (xs ys : List ℕ) → same_digest xs ys ≡ true → xs ≡ ys
same_digest→eq [] [] h = refl
same_digest→eq [] (y ∷ ys) h = cc h
same_digest→eq (x ∷ xs) [] h = cc h
same_digest→eq (x ∷ xs) (y ∷ ys) h =
    let (e, r) = &&-true (x == y) (same_digest xs ys) h in
    cc ((==_iff x y).0 e, same_digest→eq xs ys r)

same_digest_refl : (xs : List ℕ) → same_digest xs xs ≡ true
same_digest_refl [] = refl
same_digest_refl (x ∷ xs) = rw ((==_iff x x).1 refl, same_digest_refl xs) refl

module _ {P : Type 0} (sha256 : List ℕ → List ℕ) (c : RetentionCandidate P) where
  -- The digest of what was read is the authorized one.
  abbrev pub HasDigest : OpenFile → Option (List ℕ) → Type 0
  HasDigest f expected =
      IfSome (λ d. (bytes : List ℕ) × (read_all [] f.reads ≡ ok bytes) × (sha256 bytes ≡ d))
        expected

  -- The open file is a regular file, not behind a reparse point, of the size of the inventory and of
  -- the authorized size and digest, where there are such, and the system accepts its deletion.
  abbrev pub IsIdentified : OpenFile → RetentionAuthorization → Type 0
  IsIdentified f expectation =
      (m : Metadata) × (f.metadata ≡ ok m)
      × (m.is_file ≡ true)
      × (m.reparse ≡ false)
      × (m.len ≡ c.file_size_bytes)
      × IfSome (λ n. m.len ≡ n) expectation.expected_file_size_bytes
      × HasDigest f expectation.expected_sha256
      × (f.set_disposition ≡ ok tt)

  dispose-deleted : (r : Result (Unit {0})) → dispose sha256 c r ≡ inr deleted → r ≡ ok tt
  unfolding dispose
  dispose-deleted (ok u) h = refl
  dispose-deleted (err e) h = cc h

  compare_digest-deleted :
      (f : OpenFile) (d : List ℕ) (r : Result (List ℕ))
      → read_all [] f.reads ≡ r
      → compare_digest sha256 c f d r ≡ inr deleted
      → HasDigest f (some d) × (f.set_disposition ≡ ok tt)
  unfolding compare_digest
  compare_digest-deleted f d (err e) q h = cc h
  compare_digest-deleted f d (ok bytes) q h =
      if_split
        (λ (t : DeleteResult P).
          t ≡ inr deleted → HasDigest f (some d) × (f.set_disposition ≡ ok tt))
        (not (same_digest (sha256 bytes) d)) (λ _ i. cc i)
        (λ s i. (
          (bytes, q, same_digest→eq (sha256 bytes) d (ground (arith, s))),
          dispose-deleted f.set_disposition i,
        ))
        h

  check_digest-deleted :
      (f : OpenFile) (expected : Option (List ℕ))
      → check_digest sha256 c f expected ≡ inr deleted
      → HasDigest f expected × (f.set_disposition ≡ ok tt)
  unfolding check_digest
  check_digest-deleted f none h = (tt, dispose-deleted f.set_disposition h)
  check_digest-deleted f (some d) h = compare_digest-deleted f d (read_all [] f.reads) refl h

  check_authorized_size-deleted :
      (f : OpenFile) (expectation : RetentionAuthorization) (n : ℕ) (expected : Option ℕ)
      → check_authorized_size sha256 c f expectation n expected ≡ inr deleted
      → IfSome (λ k. n ≡ k) expected
        × HasDigest f expectation.expected_sha256
        × (f.set_disposition ≡ ok tt)
  unfolding check_authorized_size
  check_authorized_size-deleted f expectation n none h =
      let (d, o) = check_digest-deleted f expectation.expected_sha256 h in (tt, d, o)
  check_authorized_size-deleted f expectation n (some k) h =
      if_split
        (λ (t : DeleteResult P).
          t ≡ inr deleted
          → (n ≡ k) × HasDigest f expectation.expected_sha256 × (f.set_disposition ≡ ok tt))
        (not (n == k)) (λ _ i. cc i)
        (λ s i. (
          ground (arith, s),
          (check_digest-deleted f expectation.expected_sha256 i).0,
          (check_digest-deleted f expectation.expected_sha256 i).1,
        ))
        h

  check_metadata-deleted :
      (f : OpenFile) (expectation : RetentionAuthorization) (r : Result Metadata)
      → f.metadata ≡ r
      → check_metadata sha256 c f expectation r ≡ inr deleted
      → IsIdentified f expectation
  unfolding check_metadata
  check_metadata-deleted f expectation (err e) q h = cc h
  check_metadata-deleted f expectation (ok m) q h =
      let Q : DeleteResult P → Type 0 = λ t. t ≡ inr deleted → IsIdentified f expectation in
      if_split Q (not m.is_file || m.reparse) (λ _ i. cc i)
        (λ s.
          if_split Q (not (m.len == c.file_size_bytes)) (λ _ i. cc i)
            (λ z i.
              let (a, d, o) =
                check_authorized_size-deleted f expectation m.len
                  expectation.expected_file_size_bytes i in
              (m, q, ground (arith, s), ground (arith, s), ground (arith, z), a, d, o)))
        h

  -- The converse.
  check_digest-accepts :
      (f : OpenFile) (expected : Option (List ℕ))
      → HasDigest f expected
      → f.set_disposition ≡ ok tt
      → check_digest sha256 c f expected ≡ inr deleted
  unfolding check_digest compare_digest dispose
  check_digest-accepts f none h o = rw o refl
  check_digest-accepts f (some d) (bytes, q, e) o = rw (q, e, same_digest_refl d, o) refl

  check_authorized_size-accepts :
      (f : OpenFile) (expectation : RetentionAuthorization) (n : ℕ) (expected : Option ℕ)
      → IfSome (λ k. n ≡ k) expected
      → HasDigest f expectation.expected_sha256
      → f.set_disposition ≡ ok tt
      → check_authorized_size sha256 c f expectation n expected ≡ inr deleted
  unfolding check_authorized_size
  check_authorized_size-accepts f expectation n none e d o =
      check_digest-accepts f expectation.expected_sha256 d o
  check_authorized_size-accepts f expectation n (some k) e d o =
      rw ((==_iff n k).1 e) (check_digest-accepts f expectation.expected_sha256 d o)

  check_metadata-accepts :
      (f : OpenFile) (expectation : RetentionAuthorization) (r : Result Metadata) (m : Metadata)
      → r ≡ ok m
      → m.is_file ≡ true
      → m.reparse ≡ false
      → m.len ≡ c.file_size_bytes
      → check_authorized_size sha256 c f expectation m.len expectation.expected_file_size_bytes
        ≡ inr deleted
      → check_metadata sha256 c f expectation r ≡ inr deleted
  unfolding check_metadata
  check_metadata-accepts f expectation r m q a b z h =
      rw (q, a, b, (==_iff m.len c.file_size_bytes).1 z) h

  abbrev IsPresent : DeleteResult P → Type 0
  IsPresent r = r ≡ inr already_absent → ⊥

  check_metadata-IsPresent :
      (f : OpenFile) (expectation : RetentionAuthorization) (r : Result Metadata)
      → IsPresent (check_metadata sha256 c f expectation r)
  unfolding check_metadata check_authorized_size check_digest compare_digest dispose
  check_metadata-IsPresent f expectation r = ground arith

  identified-deleted :
      (expectation : RetentionAuthorization) (f : OpenFile)
      → IsIdentified f expectation
      → delete_exact sha256 c expectation (found f) ≡ inr deleted
  unfolding delete_exact
  identified-deleted expectation f (m, q, a, r, z, n, d, o) =
      check_metadata-accepts f expectation f.metadata m q a r z (
        check_authorized_size-accepts f expectation m.len expectation.expected_file_size_bytes n d
          o)

  -- `delete_exact` reports a deletion exactly if the file could be opened and the handle identifies
  -- it, and an absent file exactly if there was none.
  pub delete_exact_iff :
      (expectation : RetentionAuthorization) (opened : Probe OpenFile)
      → ((delete_exact sha256 c expectation opened ≡ inr deleted)
          ↔ ((f : OpenFile) × (opened ≡ found f) × IsIdentified f expectation))
        × ((delete_exact sha256 c expectation opened ≡ inr already_absent) ↔ (opened ≡ not_found))
  unfolding delete_exact
  delete_exact_iff expectation (found f) = (
    (
      (λ h. (f, refl, check_metadata-deleted f expectation f.metadata refl h)),
      (λ (g, e, i). ap (delete_exact sha256 c expectation) e ∙ identified-deleted expectation g i),
    ),
    ((λ h. elim (check_metadata-IsPresent f expectation f.metadata h) [ ]), (λ e. cc e)),
  )
  delete_exact_iff expectation not_found =
      (((λ h. cc h), (λ (g, e, i). cc e)), ((λ h. refl), (λ e. refl)))
  delete_exact_iff expectation (broken x) =
      (((λ h. cc h), (λ (g, e, i). cc e)), ((λ h. cc h), (λ e. cc e)))
