-- ===== src/Prelude/Outcome.antt =====
-- Rust's `Result`, and how a call ends: it returns, it panics, or the fuel of the model is used up.
use Prim.Native.Nat.{ℕ}
use mathlib.Core.Path.{◌≡◌, refl}
use mathlib.Core.Option.{Option, none, some}
use mathlib.Core.Bool.{Bool, true, false}
use mathlib.Core.List.{List}
use tordex.Prelude.Tests.{if◌then◌else◌}
use tordex.Prelude.Lists.{get_elem?}

-- Rust's `Result`.
pub data Result {ℓ κ} (A : Type ℓ) (E : Type κ) : Type (ℓ ⊔ κ) where
  ok : A → Result A E
  err : E → Result A E

pub data Outcome {ℓ} (A : Type ℓ) : Type ℓ where
  returned : A → Outcome A
  panicked : Outcome A
  exhausted : Outcome A

infixl 5 ◌>>=◌
abbrev pub ◌>>=◌ {ℓ κ} : {A : Type ℓ} {B : Type κ} → Outcome A → (A → Outcome B) → Outcome B
returned a >>= f = f a
panicked >>= f = panicked
exhausted >>= f = exhausted

-- `o.unwrap()`
abbrev pub unwrap {ℓ} : {A : Type ℓ} → Option A → Outcome A
unwrap none = panicked
unwrap (some x) = returned x

-- `v[i]`: an index out of range panics.
unfoldable pub index {ℓ} : {A : Type ℓ} → List A → ℕ → Outcome A
index xs i = unwrap (get_elem? xs i)

-- The type with no value, at every level.
pub data Never {ℓ} : Type ℓ where

-- The call returns, with a value that satisfies `P`.
abbrev pub Returns {ℓ κ} : {A : Type ℓ} → (A → Type κ) → Outcome A → Type κ
Returns P (returned a) = P a
Returns P panicked = Never
Returns P exhausted = Never

pub Returns-bind {ℓ κ ℓ' κ'} :
    {A : Type ℓ} {B : Type κ} (P : A → Type ℓ') (Q : B → Type κ') (m : Outcome A)
    (f : A → Outcome B)
    → Returns P m
    → ((a : A) → P a → Returns Q (f a))
    → Returns Q (m >>= f)
Returns-bind P Q (returned a) f h k = k a h
Returns-bind P Q panicked f h k = elim h [ ]
Returns-bind P Q exhausted f h k = elim h [ ]

pub Returns-map {ℓ κ κ'} :
    {A : Type ℓ} (P : A → Type κ) (Q : A → Type κ') (m : Outcome A)
    → Returns P m
    → ((a : A) → P a → Q a)
    → Returns Q m
Returns-map P Q (returned a) h k = k a h
Returns-map P Q panicked h k = elim h [ ]
Returns-map P Q exhausted h k = elim h [ ]

pub Returns-if {ℓ κ} :
    {A : Type ℓ} (P : A → Type κ) (b : Bool) (m n : Outcome A)
    → (b ≡ true → Returns P m)
    → (b ≡ false → Returns P n)
    → Returns P (if b then m else n)
Returns-if P true m n h k = h refl
Returns-if P false m n h k = k refl

pub Returns-eq {ℓ κ} :
    {A : Type ℓ} (P : A → Type κ) (m : Outcome A) → Returns P m → (a : A) × (m ≡ returned a) × P a
Returns-eq P (returned a) h = (a, refl, h)
Returns-eq P panicked h = elim h [ ]
Returns-eq P exhausted h = elim h [ ]

-- A chain that returns has parts that return.
pub >>=-returned {ℓ κ} :
    {A : Type ℓ} {B : Type κ} (m : Outcome A) (f : A → Outcome B) {b : B}
    → (m >>= f) ≡ returned b
    → (a : A) × (m ≡ returned a) × (f a ≡ returned b)
>>=-returned (returned a) f h = (a, refl, h)
>>=-returned panicked f h = cc
>>=-returned exhausted f h = cc
