-- ===== src/Retention/Files/Private/Total.antt =====
-- The private files of a whole directory.
use Prim.Native.String.{String}
use autopiercam.Base.{
  ℕ, ◌+◌, ◌-◌, ◌≤◌, ◌≡◌, refl, Bool, true, false, ◌&&◌, &&-true, leb, leb→le, le→leb, List, [], ◌∷◌,
  arith, min, u64_max, saturating_add, Result, ok, err, is_ok, >>=-is_ok, IfOk, IfOk->>=, IfOk-map,
  if_split, if◌then◌else◌,
}
use autopiercam.Retention.Files.Private.{
  Node, Count, count_node, count, is_private_name, add_private, private_bytes,
}
use autopiercam.Retention.Files.Private.Laws.{
  size, below, height, is_clean, IsCounted, in_bounds-IfOk, in_bounds-ok, count_node-IsCounted,
  count_node-is_ok,
}

abbrev pub Entries : Type 0
Entries = List (Result (String × Node))

-- The bytes of all files that are private or lie below something private.
pub private_size : Entries → ℕ
private_size [] = 0
private_size (err e ∷ rest) = private_size rest
private_size (ok (name, node) ∷ rest) =
    (if is_private_name name then size node else 0) + private_size rest

-- The paths among these.
pub private_paths : Entries → ℕ
private_paths [] = 0
private_paths (err e ∷ rest) = private_paths rest
private_paths (ok (name, node) ∷ rest) =
    (if is_private_name name then 1 + below node else 0) + private_paths rest

abbrev is_countable : Node → Bool
is_countable node = is_clean node && leb (height node) 4

-- Every entry can be read, and nothing private is unclean or deeper than four directories.
pub are_countable : Entries → Bool
are_countable [] = true
are_countable (err e ∷ rest) = false
are_countable (ok (name, node) ∷ rest) =
    (if is_private_name name then is_countable node else true) && are_countable rest

-- What is known of a count of `entries` that begins with `bytes` and `remaining`.
record IsTotal (entries : Entries) (remaining bytes total : ℕ) : Type 0 where
  total_is : total ≡ min (bytes + private_size entries) u64_max
  countable : are_countable entries ≡ true
  enough : private_paths entries ≤ remaining

-- What is known of one private entry.
abbrev IsRoot : Node → ℕ → Count → Type 0
IsRoot node remaining c =
    (1 ≤ remaining)
    × IsCounted (is_clean node) (size node) (below node) (height node) 0 0 (remaining - 1) c

count-IsRoot : (node : Node) (remaining : ℕ) → IfOk (IsRoot node remaining) (count node 0 remaining)
unfolding count
count-IsRoot node remaining =
    in_bounds-IfOk _ 0 remaining (count_node node 0 (remaining - 1)) (λ d r.
      IfOk-map _ (IsRoot node remaining) (count_node node 0 (remaining - 1)) (λ c i. (r, i))
        (count_node-IsCounted node 0 (remaining - 1) (omega arith)))

add_private-IsTotal :
    (entries : Entries) (remaining bytes : ℕ)
    → bytes ≤ u64_max
    → IfOk (IsTotal entries remaining bytes) (add_private entries remaining bytes)
unfolding add_private private_size private_paths are_countable
add_private-IsTotal [] remaining bytes h = record {
  total_is = omega arith;
  countable = refl;
  enough = omega arith;
}
add_private-IsTotal (err e ∷ rest) remaining bytes h = tt
add_private-IsTotal (ok (name, node) ∷ rest) remaining bytes h =
    let Q = IsTotal (ok (name, node) ∷ rest) remaining bytes in
    if_split (IfOk Q) (is_private_name name)
      (λ e.
        IfOk->>= (IsRoot node remaining) Q (count node 0 remaining) _ (count-IsRoot node remaining)
          (λ c (r, i).
            IfOk-map _ Q (add_private rest c.1 (saturating_add bytes c.0))
              (λ b t. record {
                total_is = rw e (omega (arith, t.total_is, i.total));
                countable =
                    rw (e, i.clean, t.countable, le→leb (height node) 4 (omega (arith, i.deep)))
                      refl;
                enough = rw e (omega (arith, t.enough, i.left, r));
              })
              (add_private-IsTotal rest c.1 (saturating_add bytes c.0) (omega arith))))
      (λ e.
        IfOk-map _ Q (add_private rest remaining bytes)
          (λ b t. record {
            total_is = rw e (omega (arith, t.total_is));
            countable = rw e t.countable;
            enough = rw e (omega (arith, t.enough));
          })
          (add_private-IsTotal rest remaining bytes h))

add_private-is_ok :
    (entries : Entries) (remaining bytes : ℕ)
    → are_countable entries ≡ true
    → private_paths entries ≤ remaining
    → is_ok (add_private entries remaining bytes) ≡ true
unfolding add_private private_paths are_countable count
add_private-is_ok [] remaining bytes c h = refl
add_private-is_ok (err e ∷ rest) remaining bytes c h = cc c
add_private-is_ok (ok (name, node) ∷ rest) remaining bytes c h =
    if_split (λ (r : Result ℕ). is_ok r ≡ true) (is_private_name name)
      (λ e.
        let (here, there) = &&-true (is_countable node) (are_countable rest) (simp e at c) in
        let (clean, deep) = &&-true (is_clean node) (leb (height node) 4) here in
        let shallow = leb→le (height node) 4 deep in
        let room : 1 + below node + private_paths rest ≤ remaining = simp e at h in
        >>=-is_ok (IsRoot node remaining) (count node 0 remaining) _
          (rw
            (in_bounds-ok 0 remaining (count_node node 0 (remaining - 1)) (omega arith)
              (omega (arith, room)))
            (count_node-is_ok node 0 (remaining - 1) clean (omega (arith, shallow))
              (omega (arith, room))))
          (count-IsRoot node remaining)
          (λ k (r, i).
            add_private-is_ok rest k.1 (saturating_add bytes k.0) there
              (omega (arith, room, i.left))))
      (λ e. add_private-is_ok rest remaining bytes (simp e at c) (omega (arith, simp e at h)))

-- If the directory can be read: a count that succeeds is the sum of the sizes of all private files,
-- cut off at `u64::MAX`; nothing private was a link, a special file, unreadable or deeper than four
-- directories; and there were at most 100,000 paths. And where all this holds, the count succeeds.
pub private_bytes_lem :
    (entries : Entries)
    → IfOk
        (λ b.
          (b ≡ min (private_size entries) u64_max)
          × (are_countable entries ≡ true)
          × (private_paths entries ≤ 100000))
        (private_bytes (ok entries))
      × (are_countable entries ≡ true
          → private_paths entries ≤ 100000
          → is_ok (private_bytes (ok entries)) ≡ true)
unfolding private_bytes
private_bytes_lem entries = (
  IfOk-map (IsTotal entries 100000 0) _ (add_private entries 100000 0)
      (λ b t. (omega (arith, t.total_is), t.countable, t.enough))
      (add_private-IsTotal entries 100000 0 (omega arith)),
  add_private-is_ok entries 100000 0,
)
