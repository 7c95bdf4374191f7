-- ===== src/Prelude/Bits.antt =====
-- Laws of `bit_or` and `bit_and`: a field below a shifted one joins it by addition, and a mask bounds
-- what passes it. Facts about single bytes are tables over all 256 values.
use Prim.Native.Nat.{
  ℕ, zero, suc, ◌+◌, ◌*◌, ◌/◌, ◌%◌, ◌^◌, ◌≤◌, ◌<◌, min, max, bit_and, bit_or, digits,
  bit_and-bitwise, bit_or-bitwise,
}
use mathlib.Core.Path.{◌≡◌, refl, ap}
use mathlib.Core.Bool.{Bool, true, ◌&&◌}
use native.Mathlib.Omega.{arith}
use native.Mathlib.Nat.{pow-suc}
use mrs_uav_bluetooth.Prelude.Tests.{◌==◌, ==_iff}

-- The digits that are left over once the first number is used up change nothing.
module _ (rest : ℕ → ℕ) (join : ℕ → ℕ → ℕ) where
  spare_digits :
      (x y spare more : ℕ)
      → x ≤ spare
      → x ≤ more
      → digits rest join more x y ≡ digits rest join spare x y
  spare_digits zero y zero zero low high = refl
  spare_digits zero y zero (suc more) low high = refl
  spare_digits zero y (suc spare) zero low high = refl
  spare_digits zero y (suc spare) (suc more) low high = refl
  spare_digits (suc x) y zero more low high = absurd (omega arith)
  spare_digits (suc x) y (suc spare) zero low high = absurd (omega arith)
  spare_digits (suc x) y (suc spare) (suc more) low high =
      let half = spare_digits (suc x / 2) (y / 2) spare more (omega arith) (omega arith) in
      omega (arith, half)

  halved :
      (x y : ℕ)
      → digits rest join x (suc x / 2) (y / 2) ≡ digits rest join (suc x / 2) (suc x / 2) (y / 2)
  halved x y = spare_digits (suc x / 2) (y / 2) (suc x / 2) x (omega arith) (omega arith)

none_or : (y : ℕ) → bit_or 0 y ≡ y
none_or = bit_or-bitwise 0

none_and : (y : ℕ) → bit_and 0 y ≡ 0
none_and = bit_and-bitwise 0

pub bit_or-halves : (x y : ℕ) → bit_or x y ≡ max (x % 2) (y % 2) + 2 * bit_or (x / 2) (y / 2)
bit_or-halves zero y = omega (none_or (y / 2), none_or y, arith)
bit_or-halves (suc x) y =
    let unfolded = bit_or-bitwise (suc x) y in
    let smaller = bit_or-bitwise (suc x / 2) (y / 2) in
    omega (unfolded, smaller, halved (λ y. y) max x y, arith)

pub bit_and-halves : (x y : ℕ) → bit_and x y ≡ min (x % 2) (y % 2) + 2 * bit_and (x / 2) (y / 2)
bit_and-halves zero y = omega (none_and (y / 2), none_and y, arith)
bit_and-halves (suc x) y =
    let unfolded = bit_and-bitwise (suc x) y in
    let smaller = bit_and-bitwise (suc x / 2) (y / 2) in
    omega (unfolded, smaller, halved (λ y. zero) min x y, arith)

bit_and-le_fuel : (fuel x mask : ℕ) → x ≤ fuel → bit_and x mask ≤ mask
bit_and-le_fuel fuel zero mask h = omega (none_and mask, arith)
bit_and-le_fuel zero (suc x) mask h = absurd (omega arith)
bit_and-le_fuel (suc fuel) (suc x) mask h =
    let smaller = bit_and-le_fuel fuel (suc x / 2) (mask / 2) (omega arith) in
    omega (bit_and-halves (suc x) mask, smaller, arith)

pub bit_and-le : (x mask : ℕ) → bit_and x mask ≤ mask
bit_and-le x mask = bit_and-le_fuel x x mask (omega arith)

double_pow : (k : ℕ) → 2 ^ suc k ≡ 2 * 2 ^ k
double_pow k = omega (arith, pow-suc 2 k)

double_shift : (k hi : ℕ) → hi * 2 ^ suc k ≡ 2 * (hi * 2 ^ k)
double_shift k hi = omega (arith, ap (λ (t : ℕ). hi * t) (double_pow k))

-- The two fields share no bit.
pub bit_or_disjoint : (k lo hi : ℕ) → lo < 2 ^ k → bit_or lo (hi * 2 ^ k) ≡ lo + hi * 2 ^ k
bit_or_disjoint zero lo hi h =
    let e : lo ≡ 0 = omega arith in rw e (omega (arith, none_or (hi * 2 ^ 0)))
bit_or_disjoint (suc k) lo hi h = rw (double_shift k hi) (
    omega (
      arith,
      bit_or-halves lo (2 * (hi * 2 ^ k)),
      bit_or_disjoint k (lo / 2) hi (omega (arith, double_pow k)),
      half,
    ))
  where
    half : bit_or (lo / 2) (2 * (hi * 2 ^ k) / 2) ≡ bit_or (lo / 2) (hi * 2 ^ k)
    half = ap (bit_or (lo / 2)) (omega arith)

pub bit_or_8 : (lo hi : ℕ) → lo < 256 → bit_or lo (hi * 256) ≡ lo + hi * 256
bit_or_8 lo hi h = bit_or_disjoint 8 lo hi h

pub bit_or_16 : (lo hi : ℕ) → lo < 65536 → bit_or lo (hi * 65536) ≡ lo + hi * 65536
bit_or_16 lo hi h = bit_or_disjoint 16 lo hi h

-- A test that holds of every number below a bound, by evaluation.
pub holds_below : ℕ → (ℕ → Bool) → Bool
holds_below zero p = true
holds_below (suc n) p = p n && holds_below n p

pub holds_below-all : (n : ℕ) (p : ℕ → Bool) (x : ℕ) → holds_below n p ≡ true → x < n → p x ≡ true
unfolding holds_below
holds_below-all zero p x h lt = absurd (omega arith)
holds_below-all (suc n) p x h lt = ground (arith, holds_below-all n p x)

module _ (f g : ℕ → ℕ) (table : holds_below 256 (λ x. f x == g x) ≡ true) where
  pub byte_table : (x : ℕ) → x < 256 → f x ≡ g x
  byte_table x h = (==_iff (f x) (g x)).0 (holds_below-all 256 _ x table h)

version_table : holds_below 256 (λ x. bit_or (bit_and x 0x0f) 0x30 / 16 == 3) ≡ true
unfolding holds_below
version_table = refl

-- Stamping the version leaves 3 in the high half of the byte.
pub version_stamp : (x : ℕ) → x < 256 → bit_or (bit_and x 0x0f) 0x30 / 16 ≡ 3
version_stamp = byte_table _ (λ _. 3) version_table

variant_table : holds_below 256 (λ x. bit_or (bit_and x 0x3f) 0x80 / 64 == 2) ≡ true
unfolding holds_below
variant_table = refl

-- Stamping the variant leaves the two top bits 10.
pub variant_stamp : (x : ℕ) → x < 256 → bit_or (bit_and x 0x3f) 0x80 / 64 ≡ 2
variant_stamp = byte_table _ (λ _. 2) variant_table
