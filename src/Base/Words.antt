-- ===== src/Base/Words.antt =====
-- Bytes, and the u16 that two bytes make: `((a as u16) << 8) | (b as u16)` and the two casts back.
use Prim.Native.Nat.{ℕ, zero, suc, ◌+◌, ◌*◌, ◌/◌, ◌%◌, ◌^◌, ◌≤◌, ◌<◌, bit_or}
use mathlib.Core.Path.{◌≡◌, refl}
use mathlib.Core.Bool.{Bool, true, false}
use mathlib.Core.List.{List, [], ◌∷◌}
use native.Mathlib.Omega.{arith}
use mathlib.Core.Logic.{◌⊎◌, inl, inr}
use rocks.Base.Tests.{◌==◌, ==_iff, Bool-cases, if◌then◌else◌}

abbrev pub Bytes : Type 0
Bytes = List ℕ

-- Each is a byte.
abbrev pub IsBytes : Bytes → Type 0
IsBytes [] = Unit {0}
IsBytes (b ∷ bs) = (b < 256) × IsBytes bs

-- `((hi as u16) << 8) | (lo as u16)`
unfoldable pub join_u16 : ℕ → ℕ → ℕ
join_u16 hi lo = bit_or (hi * 2 ^ 8 % 2 ^ 16) lo

-- `(w >> 8) as u8`
unfoldable pub high_byte : ℕ → ℕ
high_byte w = w / 2 ^ 8 % 2 ^ 8

-- `w as u8`
unfoldable pub low_byte : ℕ → ℕ
low_byte w = w % 2 ^ 8

-- A test of every number up to and including a bound.
up_to : (ℕ → Bool) → ℕ → Bool
up_to test zero = test zero
up_to test (suc bound) = if test (suc bound) then up_to test bound else false

eq_or_lt : (m n : ℕ) → m ≤ n → (m ≡ n) ⊎ (m < n)
eq_or_lt m n h = ground arith

up_to-elim : (test : ℕ → Bool) (bound i : ℕ) → i ≤ bound → up_to test bound ≡ true → test i ≡ true
unfolding up_to
up_to-elim test zero zero inside passed = passed
up_to-elim test zero (suc i) inside passed = absurd (omega arith)
up_to-elim test (suc bound) i inside passed = elim (Bool-cases (test (suc bound))) [
  | inr fails ↦ cc
  | inl holds ↦ elim (eq_or_lt i (suc bound) inside) [
    | inl last ↦ rw last holds
    | inr below ↦ up_to-elim test bound i (omega arith) (rw holds at passed)
  ]
]

-- What two bytes make is their number in base 256, by trying them all.
abbrev with_high : ℕ → Bool
with_high hi = up_to (λ lo. join_u16 hi lo == hi * 256 + lo) 255

every_pair : up_to with_high 255 ≡ true
unfolding up_to join_u16
every_pair = refl

pub join_u16_lem : (hi lo : ℕ) → hi < 256 → lo < 256 → join_u16 hi lo ≡ hi * 256 + lo
join_u16_lem hi lo h l =
    let of_high = up_to-elim with_high 255 hi (omega arith) every_pair in
    (==_iff _ _).0 (up_to-elim (λ lo. join_u16 hi lo == hi * 256 + lo) 255 lo (omega arith) of_high)

pub join_u16-split : (w : ℕ) → w < 2 ^ 16 → join_u16 (high_byte w) (low_byte w) ≡ w
unfolding high_byte low_byte
join_u16-split w h =
    omega (arith, join_u16_lem (w / 2 ^ 8 % 2 ^ 8) (w % 2 ^ 8) (omega arith) (omega arith))

pub high_byte-lt : (w : ℕ) → high_byte w < 256
unfolding high_byte
high_byte-lt w = omega arith

pub low_byte-lt : (w : ℕ) → low_byte w < 256
unfolding low_byte
low_byte-lt w = omega arith

pub split_value : (w : ℕ) → w < 2 ^ 16 → high_byte w * 256 + low_byte w ≡ w
unfolding high_byte low_byte
split_value w h = omega arith
