-- ===== src/Retention/Files/Private/Laws.antt =====
-- What the count of the private files covers.
use autopiercam.Base.{
  ℕ, ◌+◌, ◌-◌, ◌≤◌, ◌≡◌, refl, Bool, true, false, ◌&&◌, arith, min, max, u64_max, saturating_add,
  Result, IfOk, IfOk->>=, IfOk-map, is_ok, >>=-is_ok, &&-true, ltb, ◌==◌, ◌||◌, if_split,
}
use autopiercam.Retention.Files.Private.{
  Node, missing, unreadable, linked, file, special, vanished, closed, directory, Listing, end,
  entry, broken_entry, Count, in_bounds, count_node, count_entries,
}

-- The bytes of all files at or below a path.
mutual
  pub size : Node → ℕ
  size (file n) = n
  size (directory entries) = size_entries entries
  size _ = 0

  size_entries : Listing → ℕ
  size_entries (entry node rest) = size node + size_entries rest
  size_entries _ = 0

-- The paths below a path.
mutual
  pub below : Node → ℕ
  below (directory entries) = paths entries
  below _ = 0

  paths : Listing → ℕ
  paths (entry node rest) = 1 + below node + paths rest
  paths _ = 0

-- How many directories lie between a path and its deepest path.
mutual
  pub height : Node → ℕ
  height (directory entries) = height_entries entries
  height _ = 0

  height_entries : Listing → ℕ
  height_entries (entry node rest) = max (1 + height node) (height_entries rest)
  height_entries _ = 0

-- No link, no special file, and nothing that cannot be read.
mutual
  pub is_clean : Node → Bool
  is_clean missing = true
  is_clean (file n) = true
  is_clean vanished = true
  is_clean (directory entries) = are_clean entries
  is_clean _ = false

  are_clean : Listing → Bool
  are_clean end = true
  are_clean (entry node rest) = is_clean node && are_clean rest
  are_clean (broken_entry e rest) = false

-- What a count says of what it covered, where it began with `bytes` and `remaining`.
pub record IsCounted (is_clean : Bool) (size paths height depth bytes remaining : ℕ) (c : Count)
    : Type 0 where
  pub clean : is_clean ≡ true
  pub total : min c.0 u64_max ≡ min (bytes + size) u64_max
  pub left : c.1 + paths ≡ remaining
  pub deep : depth + height ≤ 4

-- A node of a directory at `depth`, counted within the bounds.
abbrev IsEntered : Node → ℕ → ℕ → Count → Type 0
IsEntered node depth remaining c =
    (depth + 1 ≤ 4)
    × (1 ≤ remaining)
    × IsCounted (is_clean node) (size node) (below node) (height node) (depth + 1) 0 (remaining - 1)
        c

pub in_bounds-IfOk :
    (P : Count → Type 0) (depth remaining : ℕ) (r : Result Count)
    → (depth ≤ 4 → 1 ≤ remaining → IfOk P r)
    → IfOk P (in_bounds depth remaining r)
in_bounds-IfOk P depth remaining r f =
    if_split (IfOk P) (ltb 4 depth || (remaining == 0)) (λ _. tt) (λ h. f (shallow h) (some_left h))
  where
    shallow : (ltb 4 depth || (remaining == 0)) ≡ false → depth ≤ 4
    shallow h = ground arith

    some_left : (ltb 4 depth || (remaining == 0)) ≡ false → 1 ≤ remaining
    some_left h = ground arith

mutual
  unfolding count_node count_entries size size_entries below paths height height_entries is_clean
      are_clean

  pub count_node-IsCounted :
      (n : Node) (depth remaining : ℕ)
      → depth ≤ 4
      → IfOk
          (IsCounted (is_clean n) (size n) (below n) (height n) depth 0 remaining)
          (count_node n depth remaining)
  count_node-IsCounted missing depth remaining h = record {
    clean = refl;
    total = omega arith;
    left = omega arith;
    deep = omega arith;
  }
  count_node-IsCounted (unreadable e) depth remaining h = tt
  count_node-IsCounted linked depth remaining h = tt
  count_node-IsCounted (file n) depth remaining h = record {
    clean = refl;
    total = omega arith;
    left = omega arith;
    deep = omega arith;
  }
  count_node-IsCounted special depth remaining h = tt
  count_node-IsCounted vanished depth remaining h = record {
    clean = refl;
    total = omega arith;
    left = omega arith;
    deep = omega arith;
  }
  count_node-IsCounted (closed e) depth remaining h = tt
  count_node-IsCounted (directory entries) depth remaining h =
      count_entries-IsCounted entries depth remaining 0 h

  count_entries-IsCounted :
      (l : Listing) (depth remaining bytes : ℕ)
      → depth ≤ 4
      → IfOk
          (IsCounted
            (are_clean l)
            (size_entries l)
            (paths l)
            (height_entries l)
            depth
            bytes
            remaining)
          (count_entries l depth remaining bytes)
  count_entries-IsCounted end depth remaining bytes h = record {
    clean = refl;
    total = omega arith;
    left = omega arith;
    deep = omega arith;
  }
  count_entries-IsCounted (broken_entry e rest) depth remaining bytes h = tt
  count_entries-IsCounted (entry node rest) depth remaining bytes h =
      IfOk->>= (IsEntered node depth remaining) _
        (in_bounds (depth + 1) remaining (count_node node (depth + 1) (remaining - 1))) _
        (in_bounds-IfOk _ (depth + 1) remaining _ (λ d r.
          IfOk-map _ (IsEntered node depth remaining) (count_node node (depth + 1) (remaining - 1))
            (λ c i. (d, r, i)) (count_node-IsCounted node (depth + 1) (remaining - 1) d)))
        (λ c (d, r, i).
          IfOk-map _ _ (count_entries rest depth c.1 (saturating_add bytes c.0))
            (λ e j. record {
              clean = rw (i.clean, j.clean) refl;
              total = omega (arith, i.total, j.total);
              left = omega (arith, i.left, j.left);
              deep = omega (arith, i.deep, j.deep);
            })
            (count_entries-IsCounted rest depth c.1 (saturating_add bytes c.0) h))

pub in_bounds-ok :
    (depth remaining : ℕ) (r : Result Count)
    → depth ≤ 4
    → 1 ≤ remaining
    → in_bounds depth remaining r ≡ r
in_bounds-ok depth remaining r h k = rw (within depth remaining h k) refl
  where
    within : (d r : ℕ) → d ≤ 4 → 1 ≤ r → (ltb 4 d || (r == 0)) ≡ false
    within d r h k = ground arith

-- A clean tree that is within the bounds is counted.
mutual
  unfolding count_node count_entries below paths height height_entries is_clean are_clean

  pub count_node-is_ok :
      (n : Node) (depth remaining : ℕ)
      → is_clean n ≡ true
      → depth + height n ≤ 4
      → below n ≤ remaining
      → is_ok (count_node n depth remaining) ≡ true
  count_node-is_ok missing depth remaining c h l = refl
  count_node-is_ok (unreadable e) depth remaining c h l = cc c
  count_node-is_ok linked depth remaining c h l = cc c
  count_node-is_ok (file n) depth remaining c h l = refl
  count_node-is_ok special depth remaining c h l = cc c
  count_node-is_ok vanished depth remaining c h l = refl
  count_node-is_ok (closed e) depth remaining c h l = cc c
  count_node-is_ok (directory entries) depth remaining c h l =
      count_entries-is_ok entries depth remaining 0 c h l

  count_entries-is_ok :
      (l : Listing) (depth remaining bytes : ℕ)
      → are_clean l ≡ true
      → depth + height_entries l ≤ 4
      → paths l ≤ remaining
      → is_ok (count_entries l depth remaining bytes) ≡ true
  count_entries-is_ok end depth remaining bytes c h l = refl
  count_entries-is_ok (broken_entry e rest) depth remaining bytes c h l = cc c
  count_entries-is_ok (entry node rest) depth remaining bytes c h l =
      let (cn, cr) = &&-true (is_clean node) (are_clean rest) c in
      rw
        (in_bounds-ok (depth + 1) remaining (count_node node (depth + 1) (remaining - 1))
          (omega arith) (omega arith))
        (>>=-is_ok _ (count_node node (depth + 1) (remaining - 1)) _
          (count_node-is_ok node (depth + 1) (remaining - 1) cn (omega arith) (omega arith))
          (count_node-IsCounted node (depth + 1) (remaining - 1) (omega arith))
          (λ e i.
            count_entries-is_ok rest depth e.1 (saturating_add bytes e.0) cr (omega arith)
              (omega (arith, i.left))))
