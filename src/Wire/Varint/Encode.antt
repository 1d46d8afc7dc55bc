-- ===== src/Wire/Varint/Encode.antt =====
-- `encodeVarintGenerated` writes the encoding just before the given offset, and nothing else.
use cloud_native_tour.Common.{
  ℕ, zero, suc, ◌+◌, ◌-◌, ◌/◌, ◌%◌, ◌^◌, ◌≤◌, ◌<◌, bit_and, bit_or, ◌≡◌, sym, ◌∙◌, List, [], ◌∷◌,
  ◌++◌, length, ltb, Bool-cases, inl, inr, ltb→lt, ltb-eq-false, lt→ltb, leb-eq-true, leb-eq-false,
  bit_and_group, bit_or_top, set-append, length-append, eq-nil_of_length, append_assoc, arith,
}
use cloud_native_tour.Wire.Result.{ok, panic}
use cloud_native_tour.Wire.Varint.{write, encode_loop, encode_varint_generated, sov_generated}
use cloud_native_tour.Wire.Varint.Groups.{groups, varint, length-groups}
use cloud_native_tour.Wire.Varint.Size.{sov_generated-varint}

pub write-append :
    (front back : List ℕ) (old new : ℕ)
    → write (front ++ (old ∷ back)) (length front) new ≡ ok (front ++ (new ∷ back))
unfolding write
write-append front back old new = rw (
  lt→ltb (length front) (length (front ++ (old ∷ back)))
      (omega (arith, length-append front (old ∷ back))),
  set-append front back old new,
)

continued : (v : ℕ) → bit_or (bit_and v 0x7f) 0x80 % 256 ≡ v % 128 + 128
continued v = rw (bit_and_group v, bit_or_top (v % 128) (omega arith)) (omega arith)

module _ (fuel v : ℕ) (front back : List ℕ) (old : ℕ) where
  encode_last :
      v < 128
      → encode_loop (suc fuel) (front ++ (old ∷ back)) (length front) v ≡ ok (front ++ (v ∷ back))
  unfolding encode_loop
  encode_last h =
      let byte : v % 256 ≡ v = omega arith in
      rw (leb-eq-false 128 v h, encode_loop, byte) (write-append front back old v)

  encode_more :
      128 ≤ v
      → encode_loop (suc fuel) (front ++ (old ∷ back)) (length front) v
        ≡ encode_loop fuel (front ++ ((v % 128 + 128) ∷ back)) (length front + 1) (v / 128)
  unfolding encode_loop
  encode_more h =
      rw (leb-eq-true 128 v h, encode_loop, continued v)
        (rw (write-append front back old (v % 128 + 128)))

-- The loop fills exactly the place of the groups.
encode_loop-groups :
    (fuel k v : ℕ) (front junk back : List ℕ)
    → k < fuel
    → v < 128 ^ suc k
    → length junk ≡ length (groups k v)
    → encode_loop fuel (front ++ (junk ++ back)) (length front) v
      ≡ ok (front ++ (groups k v ++ back))
unfolding groups
encode_loop-groups zero k v front junk back hf hv hl = absurd (omega arith)
encode_loop-groups (suc fuel) zero v front [] back hf hv hl = absurd (omega arith)
encode_loop-groups (suc fuel) zero v front (x ∷ []) back hf hv hl =
    encode_last fuel v front back x (omega arith)
encode_loop-groups (suc fuel) zero v front (x ∷ y ∷ ys) back hf hv hl = absurd (omega arith)
encode_loop-groups (suc fuel) (suc k) v front [] back hf hv hl =
    absurd (ground (arith, length-groups (suc k) v))
encode_loop-groups (suc fuel) (suc k) v front (x ∷ xs) back hf hv hl =
    elim (Bool-cases (ltb v 128)) [
      | inl small ↦
          let none_left = eq-nil_of_length xs (omega (arith, rw small at hl)) in
          rw (small, none_left) (encode_last fuel v front back x (ltb→lt v 128 small))
      | inr more ↦
          let g : ℕ = v % 128 + 128 in
          let front' : List ℕ = front ++ (g ∷ []) in
          let rest =
            encode_loop-groups fuel k (v / 128) front' xs back (omega arith) (omega arith)
              (omega (arith, rw more at hl)) in
          let first = encode_more fuel v front (xs ++ back) x (ground arith) in
          let place : length front' ≡ length front + 1 = length-append front (g ∷ []) in
          let regroup = append_assoc front (g ∷ []) in
          rw more
            (first ∙ rw (place, regroup (xs ++ back), regroup (groups k (v / 128) ++ back)) at rest)
    ]

-- Where the bytes before the offset are as many as the encoding of a number below 2 ^ 64 has:
-- `encodeVarintGenerated` replaces them by the encoding, keeps the bytes in front of them and those
-- from the offset on, and returns the place where the encoding begins.
pub encode_varint_generated-varint :
    (v : ℕ) (front junk back : List ℕ)
    → v < 2 ^ 64
    → length junk ≡ length (varint v)
    → encode_varint_generated (front ++ (junk ++ back)) (length front + length junk) v
      ≡ ok (front ++ (varint v ++ back), length front)
unfolding encode_varint_generated varint
encode_varint_generated-varint v front junk back hv hl =
    let size : sov_generated v ≡ length junk = sov_generated-varint v hv ∙ sym hl in
    let base : length front + length junk - length junk ≡ length front = omega arith in
    rw (size, ltb-eq-false (length front + length junk) (length junk) (omega arith), base)
      (rw (encode_loop-groups 10 9 v front junk back (omega arith) (omega arith) hl))

-- Where the offset is smaller than the length of the encoding of a number below 2 ^ 64,
-- `encodeVarintGenerated` panics.
pub encode_varint_generated_panics :
    (v offset : ℕ) (buffer : List ℕ)
    → v < 2 ^ 64
    → offset < length (varint v)
    → encode_varint_generated buffer offset v ≡ panic
unfolding encode_varint_generated
encode_varint_generated_panics v offset buffer hv h =
    let size = sov_generated-varint v hv in rw (size, lt→ltb offset (length (varint v)) h)
