-- ===== src/Upload/Store/Listing/Order.antt =====
-- The order of a listing: the newest first, and what lies below an id is what follows its row.
use autopiercam.Base.{
  ℕ, ◌≤◌, ◌<◌, ◌≡◌, refl, sym, ap, ◌∙◌, Bool, true, false, not, ◌&&◌, none, some, List, [], ◌∷◌,
  ◌++◌, ◌==◌, if◌then◌else◌, leb, ltb, keep, All, All-map, All-keep, All-of_append, All-intro,
  &&-true, arith, if_split, if_intro, leb→le,
}
use Prim.Native.Nat.{bit_and}
use autopiercam.Upload.Store.States.{filter_bit}
use autopiercam.Upload.Store.Ledger.{UploadJob}
use autopiercam.Upload.Store.Claims.Due.{absent_id}
use autopiercam.Upload.Store.History.{IsDistinct, ids_of}
use autopiercam.Upload.Store.Listing.{insert_newest, newest_first, is_listed, listed_jobs}

-- Each row is newer than all that follow.
abbrev pub Descending : List UploadJob → Type 0
Descending [] = Unit
Descending (x ∷ xs) = All (λ y. y.id < x.id) xs × Descending xs

-- No id comes twice.
abbrev pub Apart : List UploadJob → Type 0
Apart [] = Unit
Apart (x ∷ xs) = All (λ y. y.id ≡ x.id → ⊥) xs × Apart xs

pub IsDistinct-Apart : (xs : List UploadJob) → IsDistinct ◌==◌ (ids_of xs) → Apart xs
IsDistinct-Apart [] d = tt
IsDistinct-Apart (x ∷ xs) (p, d) = (absent_id (x.id) xs p, IsDistinct-Apart xs d)

keep-Apart : (p : UploadJob → Bool) (xs : List UploadJob) → Apart xs → Apart (keep p xs)
keep-Apart p [] a = tt
keep-Apart p (x ∷ xs) (other, a) =
    if_intro Apart (p x) (All-keep _ p (λ y h o. o) xs other, keep-Apart p xs a) (keep-Apart p xs a)

insert_newest-All :
    (P : UploadJob → Type 0) (j : UploadJob) (xs : List UploadJob)
    → P j
    → All P xs
    → All P (insert_newest j xs)
unfolding insert_newest
insert_newest-All P j [] p ps = (p, tt)
insert_newest-All P j (x ∷ xs) p (q, ps) =
    if_intro (All P) (ltb x.id j.id) (p, (q, ps)) (q, insert_newest-All P j xs p ps)

pub newest_first-All :
    (P : UploadJob → Type 0) (xs : List UploadJob) → All P xs → All P (newest_first xs)
unfolding newest_first
newest_first-All P [] ps = tt
newest_first-All P (x ∷ xs) (p, ps) =
    insert_newest-All P x (newest_first xs) p (newest_first-All P xs ps)

below : (a b : ℕ) → ltb a b ≡ true → a < b
below a b h = ground arith

above : (a b : ℕ) → ltb a b ≡ false → (a ≡ b → ⊥) → b < a
above a b h n = ground arith

insert_newest-Descending :
    (j : UploadJob) (xs : List UploadJob)
    → All (λ y. y.id ≡ j.id → ⊥) xs
    → Descending xs
    → Descending (insert_newest j xs)
unfolding insert_newest
insert_newest-Descending j [] o d = (tt, tt)
insert_newest-Descending j (x ∷ xs) (o, os) (low, d) =
    if_split Descending (ltb x.id j.id)
      (λ h. (
        (below _ _ h, All-map (λ y (p : y.id < x.id). omega (arith, p, below _ _ h)) xs low),
        (low, d),
      ))
      (λ h. (
        insert_newest-All (λ y. y.id < x.id) j xs (above _ _ h o) low,
        insert_newest-Descending j xs os d,
      ))

pub newest_first-Descending : (xs : List UploadJob) → Apart xs → Descending (newest_first xs)
unfolding newest_first
newest_first-Descending [] a = tt
newest_first-Descending (x ∷ xs) (other, a) =
    insert_newest-Descending x (newest_first xs) (newest_first-All (λ y. y.id ≡ x.id → ⊥) xs other)
      (newest_first-Descending xs a)

-- A row that is newer than all others goes to the front.
insert_newest-front :
    (j : UploadJob) (xs : List UploadJob) → All (λ y. y.id < j.id) xs → insert_newest j xs ≡ j ∷ xs
unfolding insert_newest
insert_newest-front j [] h = refl
insert_newest-front j (x ∷ xs) (p, h) = front (ltb x.id j.id) (lt→ltb _ _ p)
  where
    lt→ltb : (a b : ℕ) → a < b → ltb a b ≡ true
    lt→ltb a b h = ground arith

    front : (b : Bool) → b ≡ true → (if b then j ∷ x ∷ xs else x ∷ insert_newest j xs) ≡ j ∷ x ∷ xs
    front true e = refl
    front false e = cc

keep-insert_newest :
    (q : UploadJob → Bool) (j : UploadJob) (xs : List UploadJob)
    → Descending xs
    → keep q (insert_newest j xs) ≡ (if q j then insert_newest j (keep q xs) else keep q xs)
unfolding insert_newest
keep-insert_newest q j [] d = refl
keep-insert_newest q j (x ∷ xs) (low, d) =
    if_split
      (λ (ys : List UploadJob).
        keep q ys ≡ (if q j then insert_newest j (keep q (x ∷ xs)) else keep q (x ∷ xs)))
      (ltb x.id j.id)
      (λ h. front (q j) (
        sym (
          insert_newest-front j (keep q (x ∷ xs)) (
            All-keep (λ y. y.id < j.id) q (λ y k p. p) (x ∷ xs)
              (
                below _ _ h,
                All-map (λ y (p : y.id < x.id). omega (arith, p, below _ _ h)) xs low,
              )))))
      (λ h. later (q j) (q x) h (keep-insert_newest q j xs d))
  where
    front :
        (b : Bool)
        → j ∷ keep q (x ∷ xs) ≡ insert_newest j (keep q (x ∷ xs))
        → (if b then j ∷ keep q (x ∷ xs) else keep q (x ∷ xs))
          ≡ (if b then insert_newest j (keep q (x ∷ xs)) else keep q (x ∷ xs))
    front true e = e
    front false e = refl

    later :
        (b c : Bool)
        → ltb x.id j.id ≡ false
        → keep q (insert_newest j xs) ≡ (if b then insert_newest j (keep q xs) else keep q xs)
        → (if c then x ∷ keep q (insert_newest j xs) else keep q (insert_newest j xs)) ≡ (
            if b
            then insert_newest j (if c then x ∷ keep q xs else keep q xs)
            else if c
            then x ∷ keep q xs
            else keep q xs)
    later true true h e = rw h (ap (λ ys. x ∷ ys) e)
    later true false h e = e
    later false true h e = ap (λ ys. x ∷ ys) e
    later false false h e = e

newest_first-keep :
    (q : UploadJob → Bool) (xs : List UploadJob)
    → Apart xs
    → newest_first (keep q xs) ≡ keep q (newest_first xs)
unfolding newest_first
newest_first-keep q [] a = refl
newest_first-keep q (x ∷ xs) (other, a) =
    pick (q x) (newest_first-keep q xs a)
    ∙ sym (keep-insert_newest q x (newest_first xs) (newest_first-Descending xs a))
  where
    pick :
        (b : Bool)
        → newest_first (keep q xs) ≡ keep q (newest_first xs)
        → newest_first (if b then x ∷ keep q xs else keep q xs)
          ≡ (if b then insert_newest x (keep q (newest_first xs)) else keep q (newest_first xs))
    pick true e = ap (insert_newest x) e
    pick false e = e

keep-keep :
    (p q r : UploadJob → Bool)
    → ((x : UploadJob) → r x ≡ (p x && q x))
    → (xs : List UploadJob) → keep r xs ≡ keep q (keep p xs)
keep-keep p q r f [] = refl
keep-keep p q r f (x ∷ xs) = pick (r x) (p x) (f x) (keep-keep p q r f xs)
  where
    inner :
        (a c : Bool)
        → a ≡ c
        → keep r xs ≡ keep q (keep p xs)
        → (if a then x ∷ keep r xs else keep r xs)
          ≡ (if c then x ∷ keep q (keep p xs) else keep q (keep p xs))
    inner true true e h = ap (λ ys. x ∷ ys) h
    inner true false e h = cc
    inner false true e h = cc
    inner false false e h = h

    pick :
        (a b : Bool)
        → a ≡ (b && q x)
        → keep r xs ≡ keep q (keep p xs)
        → (if a then x ∷ keep r xs else keep r xs) ≡ keep q (if b then x ∷ keep p xs else keep p xs)
    pick a true e h = inner a (q x) e h
    pick a false e h = rw e h

-- The rows listed below an id are those of the whole listing that are below it.
pub listed_jobs-below :
    (high before mask : ℕ) (jobs : List UploadJob)
    → Apart jobs
    → listed_jobs high (some before) mask jobs
      ≡ keep (λ r. ltb r.id before) (listed_jobs high none mask jobs)
listed_jobs-below high before mask jobs a =
    ap newest_first (
      keep-keep (is_listed high none mask) (λ r. ltb r.id before)
        (is_listed high (some before) mask)
        (λ x.
          regroup (leb x.id high) (ltb x.id before) (not (bit_and mask (filter_bit x.state) == 0)))
        jobs)
    ∙ newest_first-keep (λ r. ltb r.id before) (keep (is_listed high none mask) jobs)
        (keep-Apart (is_listed high none mask) jobs a)
  where
    regroup : (a b c : Bool) → ((a && b) && c) ≡ (((a && true) && c) && b)
    regroup true true true = refl
    regroup true true false = refl
    regroup true false true = refl
    regroup true false false = refl
    regroup false b c = refl

keep_whole :
    (q : UploadJob → Bool) (xs : List UploadJob) → All (λ x. q x ≡ true) xs → keep q xs ≡ xs
keep_whole q [] h = refl
keep_whole q (x ∷ xs) (p, h) = rw p (ap (λ ys. x ∷ ys) (keep_whole q xs h))

not_below : (a b : ℕ) → b ≤ a → ltb a b ≡ false
not_below a b h = ground arith

is_below : (a b : ℕ) → a < b → ltb a b ≡ true
is_below a b h = ground arith

-- In a descending list, the rows below the last of the first part are the second part.
pub keep-after :
    (front : List UploadJob) (z : UploadJob) (rest : List UploadJob)
    → Descending (front ++ z ∷ rest)
    → keep (λ r. ltb r.id z.id) (front ++ z ∷ rest) ≡ rest
keep-after [] z rest (low, d) = rw (not_below (z.id) (z.id) (omega arith)) (
    keep_whole (λ r. ltb r.id z.id) rest
      (All-map (λ y (p : y.id < z.id). is_below y.id z.id p) rest low))
keep-after (x ∷ front) z rest (low, d) =
    rw
      (not_below (x.id) (z.id)
        (older ((All-of_append (λ y. y.id < x.id) front (z ∷ rest) low).1.0)))
      (keep-after front z rest d)
  where
    older : z.id < x.id → z.id ≤ x.id
    older h = omega arith

pub listed_jobs-Descending :
    (high mask : ℕ) (jobs : List UploadJob)
    → Apart jobs
    → Descending (listed_jobs high none mask jobs)
listed_jobs-Descending high mask jobs a =
    newest_first-Descending (keep (is_listed high none mask) jobs)
      (keep-Apart (is_listed high none mask) jobs a)

-- No listed row is newer than the high-water id.
pub listed_jobs-le :
    (high mask : ℕ) (jobs : List UploadJob)
    → All (λ j. j.id ≤ high) (listed_jobs high none mask jobs)
listed_jobs-le high mask jobs =
    newest_first-All (λ j. j.id ≤ high) (keep (is_listed high none mask) jobs)
      (All-keep (λ j. Unit {0}) (is_listed high none mask) (λ j h t. within j h) jobs
        (All-intro (λ j. Unit {0}) (λ j. tt) jobs))
  where
    within : (j : UploadJob) → is_listed high none mask j ≡ true → j.id ≤ high
    within j h = leb→le _ _ (&&-true (leb j.id high) _ (&&-true (leb j.id high && true) _ h).0).0
