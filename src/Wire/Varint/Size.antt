-- ===== src/Wire/Varint/Size.antt =====
-- `sovGenerated` is the number of bytes that the encoding takes.
use cloud_native_tour.Common.{
  ℕ, zero, suc, ◌+◌, ◌*◌, ◌/◌, ◌^◌, ◌≤◌, ◌<◌, bit_or, ◌≡◌, refl, ◌∙◌, length, ltb, Bool-cases, inl,
  inr, ltb→lt, bit_or_one, arith,
}
use native.Mathlib.Nat.{pow-suc}
use cloud_native_tour.Wire.Varint.{len_bits, sov_generated}
use cloud_native_tour.Wire.Varint.Groups.{groups, varint, length-groups_same}

len_bits_step : (k x : ℕ) → 1 ≤ x → len_bits (suc k) x ≡ suc (len_bits k (x / 2))
unfolding len_bits
len_bits_step k x h = ground arith

-- A number below 2 ^ j has at most j bits.
len_bits_le : (k j x : ℕ) → x < 2 ^ j → len_bits k x ≤ j
unfolding len_bits
len_bits_le zero j x h = omega arith
len_bits_le (suc k) zero x h = ground arith
len_bits_le (suc k) (suc j) x h = ground (arith, len_bits_le k j (x / 2) (omega arith))

-- Seven bits more, one group more.
len_bits_seven :
    (k x : ℕ)
    → 128 ≤ x
    → len_bits (suc (suc (suc (suc (suc (suc (suc k))))))) x ≡ 7 + len_bits k (x / 128)
len_bits_seven k x h =
    let last : x / 2 / 2 / 2 / 2 / 2 / 2 / 2 ≡ x / 128 = omega arith in
    rw (← last) (
      omega (
        arith,
        len_bits_step (suc (suc (suc (suc (suc (suc k)))))) x,
        len_bits_step (suc (suc (suc (suc (suc k))))) (x / 2),
        len_bits_step (suc (suc (suc (suc k)))) (x / 2 / 2),
        len_bits_step (suc (suc (suc k))) (x / 2 / 2 / 2),
        len_bits_step (suc (suc k)) (x / 2 / 2 / 2 / 2),
        len_bits_step (suc k) (x / 2 / 2 / 2 / 2 / 2),
        len_bits_step k (x / 2 / 2 / 2 / 2 / 2 / 2),
      ))

-- How many bits `k` groups and one bit more have: 64 for nine groups.
abbrev width : ℕ → ℕ
width zero = 1
width (suc k) = suc (suc (suc (suc (suc (suc (suc (width k)))))))

width_grows : (k : ℕ) → 2 ^ width (suc k) ≡ 128 * 2 ^ width k
width_grows k = omega (
  arith,
  pow-suc 2 (width k),
  pow-suc 2 (suc (width k)),
  pow-suc 2 (suc (suc (width k))),
  pow-suc 2 (suc (suc (suc (width k)))),
  pow-suc 2 (suc (suc (suc (suc (width k))))),
  pow-suc 2 (suc (suc (suc (suc (suc (width k)))))),
  pow-suc 2 (suc (suc (suc (suc (suc (suc (width k))))))),
)

len_bits-groups :
    (k x : ℕ) → 1 ≤ x → x < 2 ^ width k → (len_bits (width k) x + 6) / 7 ≡ length (groups k x)
unfolding groups
len_bits-groups zero x p h = let one : x ≡ 1 = omega arith in rw one (unfold len_bits in refl)
len_bits-groups (suc k) x p h = elim (Bool-cases (ltb x 128)) [
  | inl small ↦ rw small (
      omega (
        arith,
        len_bits_step (suc (suc (suc (suc (suc (suc (width k))))))) x p,
        len_bits_le (width (suc k)) 7 x (ltb→lt x 128 small),
      ))
  | inr more ↦
      let big : 128 ≤ x = ground arith in
      rw more (
        omega (
          arith,
          len_bits_seven (width k) x big,
          len_bits-groups k (x / 128) (omega arith) (omega (arith, width_grows k)),
        ))
]

-- For a number below 2 ^ 64, `sovGenerated` is the length of its base-128 encoding.
pub sov_generated-varint : (x : ℕ) → x < 2 ^ 64 → sov_generated x ≡ length (varint x)
unfolding sov_generated varint
sov_generated-varint x h =
    let odd : bit_or x 1 ≡ x / 2 * 2 + 1 = bit_or_one x in
    rw odd (
      len_bits-groups 9 (x / 2 * 2 + 1) (omega arith) (omega arith)
      ∙ length-groups_same 9 (x / 2 * 2 + 1) x (omega arith))
