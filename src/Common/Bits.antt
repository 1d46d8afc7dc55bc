-- ===== src/Common/Bits.antt =====
-- The bitwise operations of the varint code as arithmetic: masking with 0x7f and 0x7, setting the top
-- bit of a byte, and joining disjoint fields with `|`.
use Prim.Native.Nat.{
  ℕ, zero, suc, ◌+◌, ◌*◌, ◌/◌, ◌%◌, ◌^◌, ◌≤◌, ◌<◌, min, max, bit_and, bit_or, digits,
  bit_and-bitwise, bit_or-bitwise,
}
use mathlib.Core.Path.{◌≡◌, refl, ap, ◌∙◌}
use native.Mathlib.Nat.{
  pow-suc, one-le-pow, div-add-mod, mul-add-mod_self_right, mod-eq_of_lt, mod-lt,
}
use native.Mathlib.Omega.{arith}

module _ (skip : ℕ → ℕ) (join : ℕ → ℕ → ℕ) where
  -- Fuel beyond the number itself does not change the digits.
  more_fuel : (n m a b : ℕ) → a ≤ n → a ≤ m → digits skip join n a b ≡ digits skip join m a b
  more_fuel zero zero zero b p q = refl
  more_fuel zero zero (suc a) b p q = absurd (omega arith)
  more_fuel zero (suc m) zero b p q = refl
  more_fuel zero (suc m) (suc a) b p q = absurd (omega arith)
  more_fuel (suc n) zero zero b p q = refl
  more_fuel (suc n) zero (suc a) b p q = absurd (omega arith)
  more_fuel (suc n) (suc m) zero b p q = refl
  more_fuel (suc n) (suc m) (suc a) b p q =
      let tail = more_fuel n m (suc a / 2) (b / 2) (omega arith) (omega arith) in rw tail

and_zero_left : (b : ℕ) → bit_and 0 b ≡ 0
and_zero_left b = bit_and-bitwise 0 b

or_zero_left : (b : ℕ) → bit_or 0 b ≡ b
or_zero_left b = bit_or-bitwise 0 b

pub bit_and_step : (x y : ℕ) → bit_and x y ≡ bit_and (x / 2) (y / 2) * 2 + min (x % 2) (y % 2)
bit_and_step zero y = omega (arith, and_zero_left (y / 2), and_zero_left y)
bit_and_step (suc x) y =
    let half = suc x / 2 in
    let fuel = more_fuel (λ z. 0) min x half half (y / 2) (omega arith) (omega arith) in
    omega (arith, fuel, bit_and-bitwise half (y / 2), bit_and-bitwise (suc x) y)

pub bit_or_step : (x y : ℕ) → bit_or x y ≡ bit_or (x / 2) (y / 2) * 2 + max (x % 2) (y % 2)
bit_or_step zero y = omega (arith, or_zero_left (y / 2), or_zero_left y)
bit_or_step (suc x) y =
    let half = suc x / 2 in
    let fuel = more_fuel (λ z. z) max x half half (y / 2) (omega arith) (omega arith) in
    omega (arith, fuel, bit_or-bitwise half (y / 2), bit_or-bitwise (suc x) y)

and_zero_below : (n a : ℕ) → a ≤ n → bit_and a 0 ≡ 0
and_zero_below n zero h = and_zero_left 0
and_zero_below zero (suc a) h = absurd (omega arith)
and_zero_below (suc n) (suc a) h =
    omega (arith, bit_and_step (suc a) 0, and_zero_below n (suc a / 2) (omega arith))

or_zero_below : (n a : ℕ) → a ≤ n → bit_or a 0 ≡ a
or_zero_below n zero h = or_zero_left 0
or_zero_below zero (suc a) h = absurd (omega arith)
or_zero_below (suc n) (suc a) h =
    omega (arith, bit_or_step (suc a) 0, or_zero_below n (suc a / 2) (omega arith))

and_one : (a : ℕ) → bit_and a 1 ≡ a % 2
and_one a = omega (arith, bit_and_step a 1, and_zero_below (a / 2) (a / 2) (omega arith))

-- `x & 0x7` is the wire type of a tag.
pub bit_and_seven : (a : ℕ) → bit_and a 0x7 ≡ a % 8
bit_and_seven a = omega (arith, bit_and_step a 7, bit_and_step (a / 2) 3, and_one (a / 2 / 2))

and_fifteen : (a : ℕ) → bit_and a 15 ≡ a % 16
and_fifteen a = omega (arith, bit_and_step a 15, bit_and_seven (a / 2))

and_63 : (a : ℕ) → bit_and a 63 ≡ a % 64
and_63 a = omega (arith, bit_and_step a 63, bit_and_step (a / 2) 31, and_fifteen (a / 2 / 2))

-- `x & 0x7f` is the group of seven bits in a byte of a varint.
pub bit_and_group : (a : ℕ) → bit_and a 0x7f ≡ a % 128
bit_and_group a = omega (arith, bit_and_step a 127, and_63 (a / 2))

-- `x | 1` sets the lowest bit.
pub bit_or_one : (a : ℕ) → bit_or a 1 ≡ a / 2 * 2 + 1
bit_or_one a = omega (arith, bit_or_step a 1, or_zero_below (a / 2) (a / 2) (omega arith))

double : (q k : ℕ) → q * 2 ^ suc k ≡ 2 * (q * 2 ^ k)
double q k = omega (arith, ap (λ (t : ℕ). q * t) (pow-suc 2 k))

-- `r | q << k` is a sum when `r` fits below bit `k`.
pub bit_or_fields : (k q r : ℕ) → r < 2 ^ k → bit_or r (q * 2 ^ k) ≡ r + q * 2 ^ k
bit_or_fields zero q r fits = ground (arith, or_zero_left q)
bit_or_fields (suc k) q r fits = ground (
  arith,
  double q k,
  pow-suc 2 k,
  bit_or_step r (q * 2 ^ suc k),
  bit_or_fields k q (r / 2) (omega (arith, pow-suc 2 k)),
)

-- The continuation bit of a byte.
pub bit_or_top : (g : ℕ) → g < 128 → bit_or g 0x80 ≡ g + 128
bit_or_top g h = bit_or_fields 7 1 g h

mod_double : (k a : ℕ) → a % 2 ^ suc k ≡ a / 2 % 2 ^ k * 2 + a % 2
mod_double k a =
    let q = a / 2 / 2 ^ k in
    let r = a / 2 % 2 ^ k in
    let small : r < 2 ^ k = mod-lt (a / 2) (one-le-pow k 2 (omega arith)) in
    let whole : a ≡ q * 2 ^ suc k + (r * 2 + a % 2) =
      omega (arith, double q k, div-add-mod (a / 2) (2 ^ k)) in
    ap (λ t. t % 2 ^ suc k) whole
    ∙ mul-add-mod_self_right q (2 ^ suc k) (r * 2 + a % 2)
    ∙ mod-eq_of_lt (omega (arith, pow-suc 2 k))

half_mod : (k a : ℕ) → a % 2 ^ suc k / 2 ≡ a / 2 % 2 ^ k
half_mod k a = omega (arith, mod_double k a)

-- `|` works bit by bit, so it may be truncated before or after.
pub bit_or-mod : (k x y : ℕ) → bit_or x y % 2 ^ k ≡ bit_or (x % 2 ^ k) (y % 2 ^ k)
bit_or-mod zero x y = ground (arith, or_zero_left 0)
bit_or-mod (suc k) x y =
    let step = rw (half_mod k x, half_mod k y) at (bit_or_step (x % 2 ^ suc k) (y % 2 ^ suc k)) in
    let half : bit_or x y / 2 ≡ bit_or (x / 2) (y / 2) = omega (arith, bit_or_step x y) in
    let whole = rw half at (mod_double k (bit_or x y)) in
    omega (
      arith,
      step,
      whole,
      mod_double k x,
      mod_double k y,
      bit_or_step x y,
      bit_or-mod k (x / 2) (y / 2),
    )
