-- ===== src/Base/Tests.antt =====
-- Boolean tests on the native numbers, the conditional, and the tests of `Option` that the source
-- calls `is_some`, `is_some_and` and `is_none_or`.
use Prim.Native.Nat.{ℕ, ◌≤◌, ◌<◌, compare, Ordering}
use mathlib.Core.Path.{◌≡◌, refl}
use mathlib.Core.Logic.{◌↔◌, ◌⊎◌, inl, inr}
use mathlib.Core.Bool.{Bool, true, false, ◌&&◌}
use mathlib.Core.Option.{Option, none, some}
use native.Mathlib.Omega.{arith}

abbrev pub ltb : ℕ → ℕ → Bool
ltb a b = elim (compare a b) [ Ordering.lt ↦ true | _ ↦ false ]

abbrev pub leb : ℕ → ℕ → Bool
leb a b = elim (compare a b) [ Ordering.gt ↦ false | _ ↦ true ]

infix 50 ◌==◌
abbrev pub ◌==◌ : ℕ → ℕ → Bool
a == b = elim (compare a b) [ Ordering.eq ↦ true | _ ↦ false ]

infix 1 if◌then◌else◌
abbrev pub if◌then◌else◌ {ℓ} : {A : Type ℓ} → Bool → A → A → A
if true then x else y = x
if false then x else y = y

pub ltb→lt : (a b : ℕ) → ltb a b ≡ true → a < b
ltb→lt a b h = ground arith

pub leb→le : (a b : ℕ) → leb a b ≡ true → a ≤ b
leb→le a b h = ground arith

pub le→leb : (a b : ℕ) → a ≤ b → leb a b ≡ true
le→leb a b h = ground arith

pub lt→leb_false : (a b : ℕ) → b < a → leb a b ≡ false
lt→leb_false a b h = ground arith

pub ==_iff : (a b : ℕ) → ((a == b) ≡ true) ↔ (a ≡ b)
==_iff a b = ground arith

pub Bool-cases : (b : Bool) → (b ≡ true) ⊎ (b ≡ false)
Bool-cases true = inl refl
Bool-cases false = inr refl

pub &&-true : (a b : Bool) → (a && b) ≡ true → (a ≡ true) × (b ≡ true)
&&-true a b h = ground arith

module _ {ℓ} {A : Type ℓ} where
  pub Option-cases : (o : Option A) → (o ≡ none) ⊎ ((a : A) × (o ≡ some a))
  Option-cases none = inl refl
  Option-cases (some a) = inr (a, refl)

  abbrev pub is_some : Option A → Bool
  is_some none = false
  is_some (some a) = true

  abbrev pub is_some_and : Option A → (A → Bool) → Bool
  is_some_and none p = false
  is_some_and (some a) p = p a

  abbrev pub is_none_or : Option A → (A → Bool) → Bool
  is_none_or none p = true
  is_none_or (some a) p = p a

  abbrev pub unwrap_or : Option A → A → A
  unwrap_or none d = d
  unwrap_or (some a) d = a

  abbrev pub map_option {κ} : {B : Type κ} → (A → B) → Option A → Option B
  map_option f none = none
  map_option f (some a) = some (f a)

module _ {ℓ} {A : Type ℓ} where
  -- What holds of both branches holds of the test.
  pub if_intro {κ} : (P : A → Type κ) (b : Bool) {x y : A} → P x → P y → P (if b then x else y)
  if_intro P true p q = p
  if_intro P false p q = q

  -- The branches may use the outcome of the test.
  pub if_split {κ} :
      (P : A → Type κ) (b : Bool) {x y : A}
      → (b ≡ true → P x)
      → (b ≡ false → P y)
      → P (if b then x else y)
  if_split P true p q = p refl
  if_split P false p q = q refl

module _ {ℓ κ} {A : Type ℓ} where
  -- A predicate on the value, if there is one.
  abbrev pub IfSome : (A → Type κ) → Option A → Type κ
  IfSome P none = Unit
  IfSome P (some a) = P a

pub IfSome-map {ℓ κ μ} :
    {A : Type ℓ} (I : A → Type κ) (J : A → Type μ) (r : Option A)
    → ((a : A) → I a → J a)
    → IfSome I r
    → IfSome J r
IfSome-map I J none f i = tt
IfSome-map I J (some a) f i = f a i
