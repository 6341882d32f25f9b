-- ===== src/Base/Results.antt =====
-- Fallible code: a result, or the text of the error. `do` blocks over it stand for `?` and for
-- early returns of an error.
use Prim.Native.String.{String}
use mathlib.Core.Path.{◌≡◌, refl}
use mathlib.Core.Logic.{◌⊎◌, inl, inr}
use mathlib.Core.Bool.{Bool, true, false}

pub data Result {ℓ} (A : Type ℓ) : Type ℓ where
  ok : A → Result A
  err : String → Result A

-- An error with its text changed, as `map_err` does.
abbrev pub map_err {ℓ} : {A : Type ℓ} → (String → String) → Result A → Result A
map_err f (ok a) = ok a
map_err f (err e) = err (f e)

-- `anyhow::ensure!` and the like: the error unless the test holds.
abbrev pub guard : Bool → String → Result (Unit {0})
guard holds e = elim holds [ true ↦ ok tt | false ↦ err e ]

-- What `?` does with the rest of a function.
abbrev pub and_then {ℓ κ} : {A : Type ℓ} {B : Type κ} → (A → Result B) → Result A → Result B
and_then rest (ok a) = rest a
and_then rest (err e) = err e

infixl 20 ◌>>=◌ ◌>>◌
abbrev pub ◌>>=◌ {ℓ κ} : {A : Type ℓ} {B : Type κ} → Result A → (A → Result B) → Result B
r >>= rest = and_then rest r

abbrev pub ◌>>◌ {κ} : {B : Type κ} → Result (Unit {0}) → Result B → Result B
r >> rest = and_then (λ _. rest) r

pub Result-cases {ℓ} :
    {A : Type ℓ} (r : Result A) → ((a : A) × (r ≡ ok a)) ⊎ ((e : String) × (r ≡ err e))
Result-cases (ok a) = inl (a, refl)
Result-cases (err e) = inr (e, refl)

-- A predicate on the value of a success.
abbrev pub IfOk {ℓ κ} : {A : Type ℓ} → (A → Type κ) → Result A → Type κ
IfOk P (ok a) = P a
IfOk P (err e) = Unit

pub IfOk->>= {ℓ κ μ ν} :
    {A : Type ℓ} {B : Type κ} (P : A → Type μ) (Q : B → Type ν) (r : Result A) (f : A → Result B)
    → IfOk P r
    → ((a : A) → P a → IfOk Q (f a))
    → IfOk Q (r >>= f)
IfOk->>= P Q (ok a) f p q = q a p
IfOk->>= P Q (err e) f p q = tt

pub IfOk-map {ℓ κ μ} :
    {A : Type ℓ} (P : A → Type κ) (Q : A → Type μ) (r : Result A)
    → ((a : A) → P a → Q a)
    → IfOk P r
    → IfOk Q r
IfOk-map P Q (ok a) f p = f a p
IfOk-map P Q (err e) f p = tt

abbrev pub is_ok {ℓ} : {A : Type ℓ} → Result A → Bool
is_ok (ok a) = true
is_ok (err e) = false

-- A chain succeeds if its first part does, and the rest on what that returns.
pub >>=-is_ok {ℓ κ μ} :
    {A : Type ℓ} {B : Type κ} (P : A → Type μ) (r : Result A) (f : A → Result B)
    → is_ok r ≡ true
    → IfOk P r
    → ((a : A) → P a → is_ok (f a) ≡ true)
    → is_ok (r >>= f) ≡ true
>>=-is_ok P (ok a) f h p q = q a p
>>=-is_ok P (err e) f h p q = cc h
