-- ===== src/Prelude/Tests.antt =====
-- Boolean tests on the native numbers, the conditional, and array cells as functions.
use Prim.Native.Nat.{ℕ, ◌+◌, ◌-◌, ◌%◌, compare, Ordering}
use mathlib.Core.Path.{◌≡◌, refl}
use mathlib.Core.Logic.{◌≢◌, ◌↔◌, ◌⊎◌, inl, inr}
use mathlib.Core.Bool.{Bool, true, false}
use native.Mathlib.Omega.{arith}

-- These compute to `compare`, which `ground` and `grind` read with no lemma listed.
abbrev pub ltb : ℕ → ℕ → Bool
ltb a b = elim (compare a b) [ Ordering.lt ↦ true | _ ↦ false ]

abbrev pub leb : ℕ → ℕ → Bool
leb a b = elim (compare a b) [ Ordering.gt ↦ false | _ ↦ true ]

infix 50 ◌==◌
abbrev pub ◌==◌ : ℕ → ℕ → Bool
a == b = elim (compare a b) [ Ordering.eq ↦ true | _ ↦ false ]

infix 1 if◌then◌else◌
abbrev pub if◌then◌else◌ {ℓ} : {A : Type ℓ} → Bool → A → A → A
if true then x else y = x
if false then x else y = y

pub ==_iff : (a b : ℕ) → ((a == b) ≡ true) ↔ (a ≡ b)
==_iff a b = ground arith

pub Bool-cases : (b : Bool) → (b ≡ true) ⊎ (b ≡ false)
Bool-cases true = inl refl
Bool-cases false = inr refl

-- What holds on both branches holds of the conditional.
pub if_keeps {ℓ κ} :
    {A : Type ℓ} (P : A → Type κ) (b : Bool) (x y : A)
    → (b ≡ true → P x)
    → (b ≡ false → P y)
    → P (if b then x else y)
if_keeps P true x y t e = t refl
if_keeps P false x y t e = e refl

-- a[i] = v, for an array as the function of its indices
abbrev pub update {ℓ} : {A : Type ℓ} → (ℕ → A) → ℕ → A → ℕ → A
update a i v j = if j == i then v else a j

-- the 0 or 1 that a C comparison gives
abbrev pub bit : Bool → ℕ
bit true = 1
bit false = 0

-- uint32_t and uint16_t: ++ and -- wrap
abbrev pub inc32 : ℕ → ℕ
inc32 x = (x + 1) % 4294967296

abbrev pub sub32 : ℕ → ℕ → ℕ
sub32 x k = (x + 4294967296 - k) % 4294967296

abbrev pub inc16 : ℕ → ℕ
inc16 x = (x + 1) % 65536

abbrev pub dec16 : ℕ → ℕ
dec16 x = (x + 65535) % 65536

pub update_self {ℓ} : {A : Type ℓ} (a : ℕ → A) (i : ℕ) (v : A) → update a i v i ≡ v
update_self a i v = rw (same i)
  where
    same : (k : ℕ) → (k == k) ≡ true
    same k = ground arith

pub update_ne {ℓ} : {A : Type ℓ} (a : ℕ → A) (i : ℕ) (v : A) {j : ℕ} → j ≢ i → update a i v j ≡ a j
update_ne a i v {j} h = elim (Bool-cases (j == i)) [
  | inl e ↦ absurd (h ((==_iff j i).0 e))
  | inr e ↦ rw e
]
