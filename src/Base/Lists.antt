-- ===== src/Base/Lists.antt =====
-- Lists measured by native numbers, Boolean filters, and predicates over lists.
use Prim.Native.Nat.{ℕ, zero, suc, ◌+◌}
use mathlib.Core.Path.{◌≡◌, refl, ap}
use mathlib.Core.Bool.{Bool, true, false}
use mathlib.Core.List.{Sublist, List, [], ◌∷◌, ◌++◌}
use mathlib.Core.List.Sublist
use native.Mathlib.Omega.{arith}
use autopiercam.Base.Tests.{if◌then◌else◌}

module _ {ℓ} {A : Type ℓ} where
  abbrev pub length : List A → ℕ
  length [] = 0
  length (x ∷ xs) = suc (length xs)

  pub length-append : (xs ys : List A) → length (xs ++ ys) ≡ length xs + length ys
  length-append [] ys = omega arith
  length-append (x ∷ xs) ys = omega (arith, length-append xs ys)

  -- The first entries of a list, and the others.
  abbrev pub take : ℕ → List A → List A
  take zero xs = []
  take (suc n) [] = []
  take (suc n) (x ∷ xs) = x ∷ take n xs

  abbrev pub drop : ℕ → List A → List A
  drop zero xs = xs
  drop (suc n) [] = []
  drop (suc n) (x ∷ xs) = drop n xs

  pub take-append : (xs ys : List A) → take (length xs) (xs ++ ys) ≡ xs
  take-append [] ys = refl
  take-append (x ∷ xs) ys = ap (λ t. x ∷ t) (take-append xs ys)

  pub drop-append : (xs ys : List A) → drop (length xs) (xs ++ ys) ≡ ys
  drop-append [] ys = refl
  drop-append (x ∷ xs) ys = drop-append xs ys

  -- Whether a test holds of every entry.
  abbrev pub All {κ} : (A → Type κ) → List A → Type κ
  All P [] = Unit
  All P (x ∷ xs) = P x × All P xs

  pub All-map {κ μ} :
      {P : A → Type κ} {Q : A → Type μ} (f : (a : A) → P a → Q a) (xs : List A)
      → All P xs
      → All Q xs
  All-map f [] h = tt
  All-map f (x ∷ xs) h = (f x h.0, All-map f xs h.1)

  -- The entries that pass a Boolean test, in order.
  abbrev pub keep : (A → Bool) → List A → List A
  keep p [] = []
  keep p (x ∷ xs) = if p x then x ∷ keep p xs else keep p xs

module _ {ℓ} {A : Type ℓ} where
  -- A filter with a stronger test keeps a sublist of what the weaker one keeps.
  pub keep-sublist :
      (p q : A → Bool)
      → ((a : A) → p a ≡ true → q a ≡ true)
      → (xs : List A) → Sublist (keep p xs) (keep q xs)
  keep-sublist p q f [] = Sublist.refl []
  keep-sublist p q f (x ∷ xs) = step (p x) (q x) (f x) (keep-sublist p q f xs)
    where
      step :
          (b c : Bool)
          → (b ≡ true → c ≡ true)
          → Sublist (keep p xs) (keep q xs)
          → Sublist
              (if b then x ∷ keep p xs else keep p xs)
              (if c then x ∷ keep q xs else keep q xs)
      step true true g s = Sublist.cons-cons x s
      step true false g s = cc (g refl)
      step false true g s = Sublist.cons x s
      step false false g s = s

  pub keep-append : (p : A → Bool) (xs ys : List A) → keep p (xs ++ ys) ≡ keep p xs ++ keep p ys
  keep-append p [] ys = refl
  keep-append p (x ∷ xs) ys = ground (arith, keep-append p xs ys)

module _ {ℓ κ} {A : Type ℓ} where
  pub All-append : (P : A → Type κ) (xs ys : List A) → All P xs → All P ys → All P (xs ++ ys)
  All-append P [] ys h k = k
  All-append P (x ∷ xs) ys h k = (h.0, All-append P xs ys h.1 k)

  pub All-of_append : (P : A → Type κ) (xs ys : List A) → All P (xs ++ ys) → All P xs × All P ys
  All-of_append P [] ys h = (tt, h)
  All-of_append P (x ∷ xs) ys h = let (a, b) = All-of_append P xs ys h.1 in ((h.0, a), b)

  -- What an entry has if it passes the test, every kept entry has.
  pub All-keep {μ} :
      (P : A → Type κ) {Q : A → Type μ} (p : A → Bool)
      → ((a : A) → p a ≡ true → P a → Q a)
      → (xs : List A) → All P xs
      → All Q (keep p xs)
  All-keep P {Q = Q} p f [] h = tt
  All-keep P {Q = Q} p f (x ∷ xs) h = step (p x) (f x) (All-keep P p f xs h.1)
    where
      step :
          (b : Bool)
          → (b ≡ true → P x → Q x)
          → All Q (keep p xs)
          → All Q (if b then x ∷ keep p xs else keep p xs)
      step true g r = (g refl h.0, r)
      step false g r = r

module _ {ℓ κ} {A : Type ℓ} where
  pub All-intro : (P : A → Type κ) → ((a : A) → P a) → (xs : List A) → All P xs
  All-intro P f [] = tt
  All-intro P f (x ∷ xs) = (f x, All-intro P f xs)
