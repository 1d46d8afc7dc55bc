-- ===== src/Wire/Varint/Read.antt =====
-- The reading loop on any input and on a number's groups.
use cloud_native_tour.Common.{
  ℕ, zero, suc, ◌+◌, ◌*◌, ◌/◌, ◌%◌, ◌^◌, ◌≤◌, ◌<◌, bit_and, bit_or, ◌≡◌, ◌≢◌, ap, inl, inr,
  Bool-cases, Option-cases, leb-eq-false, List, some, ltb, lt→ltb, ltb→lt, ltb-eq-false, ◌∙◌,
  length, get_elem?, get_elem?-lt, bit_and_group, bit_or_fields, arith,
}
use cloud_native_tour.Wire.Result.{ok, stuck}
use cloud_native_tour.Wire.Slice.{Holds, Holds-head, Holds-tail}
use cloud_native_tour.Wire.Varint.{read_loop, read_varint}
use cloud_native_tour.Wire.Varint.Groups.{groups, varint}
use native.Mathlib.Nat.{div-add-mod}
use native.Mathlib.Numerals.{towards_suc}

-- The accumulator after a byte.
abbrev add_group : ℕ → ℕ → ℕ → ℕ
add_group acc b shift = bit_or acc (bit_and b 0x7f * 2 ^ shift % 2 ^ 64)

read_loop-ne-stuck :
    (fuel : ℕ) (input : List ℕ) (i shift acc : ℕ)
    → 71 ≤ shift + 7 * fuel
    → 1 ≤ fuel
    → read_loop fuel input i shift acc ≢ stuck
unfolding read_loop
read_loop-ne-stuck zero input i shift acc h p e = absurd (omega arith)
read_loop-ne-stuck (suc zero) input i shift acc h p e = ground arith
read_loop-ne-stuck (suc (suc fuel)) input i shift acc h p e =
    elim (Option-cases (get_elem? input i)) [
      | inl n ↦ ground arith
      | inr (b, s) ↦
          ground
            (arith, read_loop-ne-stuck (suc fuel) input (i + 1) (shift + 7) (add_group acc b shift))
    ]

read_loop_takes :
    (fuel : ℕ) (input : List ℕ) (i shift acc v j : ℕ)
    → read_loop fuel input i shift acc ≡ ok (v, j)
    → (i < j) × (j ≤ length input)
unfolding read_loop
read_loop_takes zero input i shift acc v j e = cc
read_loop_takes (suc fuel) input i shift acc v j e = elim (Option-cases (get_elem? input i)) [
  | inl n ↦ ground arith
  | inr (b, s) ↦ ground (
    arith,
    get_elem?-lt input i s,
    read_loop_takes fuel input (i + 1) (shift + 7) (add_group acc b shift) v j,
  )
]

add_group_sum :
    (acc b shift : ℕ)
    → acc < 2 ^ shift
    → acc + b % 128 * 2 ^ shift < 2 ^ 64
    → add_group acc b shift ≡ acc + b % 128 * 2 ^ shift
add_group_sum acc b shift ha fits =
    ground (arith, bit_and_group b, bit_or_fields shift (b % 128) acc)

-- One round on a byte without the continuation bit, and on one with it.
module _ (fuel : ℕ) (input : List ℕ) (i shift acc b : ℕ) (at : get_elem? input i ≡ some b) where
  last_byte :
      shift < 64
      → acc < 2 ^ shift
      → acc + b * 2 ^ shift < 2 ^ 64
      → b < 128
      → read_loop (suc fuel) input i shift acc ≡ ok (acc + b * 2 ^ shift, i + 1)
  unfolding read_loop
  last_byte hs ha fits small =
      let same : b % 128 ≡ b = omega arith in
      let sum = add_group_sum acc b shift ha (rw same fits) in
      rw (leb-eq-false 64 shift hs, read_loop)
        (rw (at, read_loop)
          (rw (lt→ltb b 128 small, read_loop) (ap (λ t. ok (t, i + 1)) (rw same at sum))))

  inner_byte :
      shift < 64
      → acc < 2 ^ shift
      → acc + b % 128 * 2 ^ shift < 2 ^ 64
      → 128 ≤ b
      → read_loop (suc fuel) input i shift acc
        ≡ read_loop fuel input (i + 1) (shift + 7) (acc + b % 128 * 2 ^ shift)
  unfolding read_loop
  inner_byte hs ha fits big =
      rw (leb-eq-false 64 shift hs, read_loop)
        (rw (at, read_loop)
          (rw (ltb-eq-false b 128 big, read_loop)
            (ap (λ t. read_loop fuel input (i + 1) (shift + 7) t)
              (add_group_sum acc b shift ha fits))))

seven_more : (place : ℕ) → 2 ^ (place + 7) ≡ 128 * 2 ^ place
seven_more place = simp towards_suc (omega arith)

group_fits : (acc g s : ℕ) → acc < 2 ^ s → g < 128 → acc + g * 2 ^ s < 2 ^ (s + 7)
group_fits acc g s ha hg = rw seven_more (grind arith)

-- A number moved up is its low seven bits moved up, and the others moved up by seven more.
low_and_high : (n place : ℕ) → n * 2 ^ place ≡ n % 128 * 2 ^ place + n / 128 * 2 ^ (place + 7)
low_and_high n place =
    let high = ap (λ (k : ℕ). n / 128 * k) (seven_more place) in
    let whole = ap (λ (k : ℕ). k * 2 ^ place) (div-add-mod n 128) in omega (arith, high, whole)

-- `w` is the part not read so far, whose lowest bit goes to `shift`.
read_loop-groups :
    (fuel k w : ℕ) (input : List ℕ) (i shift acc : ℕ)
    → Holds input i (groups k w)
    → w < 128 ^ suc k
    → k < fuel
    → shift + 7 * k < 64
    → acc < 2 ^ shift
    → acc + w * 2 ^ shift < 2 ^ 64
    → read_loop fuel input i shift acc ≡ ok (acc + w * 2 ^ shift, i + length (groups k w))
unfolding groups
read_loop-groups zero k w input i shift acc h hw hf hs ha fits = absurd (omega arith)
read_loop-groups (suc fuel) zero w input i shift acc h hw hf hs ha fits =
    last_byte fuel input i shift acc w (Holds-head h) (omega arith) ha fits (omega arith)
read_loop-groups (suc fuel) (suc k) w input i shift acc h hw hf hs ha fits =
    elim (Bool-cases (ltb w 128)) [
      | inl small ↦ rw small (
          last_byte fuel input i shift acc w (Holds-head (rw small at h)) (omega arith) ha fits
            (ltb→lt w 128 small))
      | inr more ↦
          let here = rw more at h in
          let top : (w % 128 + 128) % 128 ≡ w % 128 = omega arith in
          let parts = low_and_high w shift in
          let head =
            inner_byte fuel input i shift acc (w % 128 + 128) (Holds-head here) (omega arith) ha
              (rw top (omega arith)) (omega arith) in
          let rest =
            read_loop-groups fuel k (w / 128) input (i + 1) (shift + 7) (acc + w % 128 * 2 ^ shift)
              (Holds-tail _ here) (omega arith) (omega arith) (omega arith)
              (group_fits acc (w % 128) shift ha (omega arith)) (omega arith) in
          rw more (rw top at head ∙ rest ∙ ground arith)
    ]

-- Where the encoding of a number below 2 ^ 64 stands in the input, reading there gives the number and
-- the place behind the encoding.
pub read_varint-varint :
    (input : List ℕ) (i v : ℕ)
    → v < 2 ^ 64
    → Holds input i (varint v)
    → read_varint input i ≡ ok (v, i + length (varint v))
unfolding read_varint varint
read_varint-varint input i v hv h =
    let one : 0 + v * 2 ^ 0 ≡ v = omega arith in
    rw one at (
      read_loop-groups 11 9 v input i 0 0 h (omega arith) (omega arith) (omega arith) (omega arith)
        (omega arith))

-- Reading ends on every input, and takes a byte at least.
pub read_varint-ne-stuck : (input : List ℕ) (i : ℕ) → read_varint input i ≢ stuck
unfolding read_varint
read_varint-ne-stuck input i = read_loop-ne-stuck 11 input i 0 0 (omega arith) (omega arith)

pub read_varint_takes :
    (input : List ℕ) (i v j : ℕ) → read_varint input i ≡ ok (v, j) → (i < j) × (j ≤ length input)
unfolding read_varint
read_varint_takes input i v j e = read_loop_takes 11 input i 0 0 v j e
