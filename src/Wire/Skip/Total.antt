-- ===== src/Wire/Skip/Total.antt =====
-- `skipGenerated` ends on every input, and what it skips is at least a byte.
use cloud_native_tour.Common.{
  ℕ, zero, suc, ◌+◌, ◌*◌, ◌^◌, ◌≤◌, ◌<◌, ◌≡◌, ◌≢◌, List, leb, lt→ltb, ltb-eq-false, sym, ◌∙◌,
  length, get_elem?, get_elem?-lt, Option-cases, inl, inr, bit_and, arith,
}
use cloud_native_tour.Wire.Result.{
  ok, err, stuck, unexpected_eof, ◌>>=◌, >>=-eq-ok, >>=-ne-stuck, guard-eq-ok,
}
use native.Mathlib.Decide.{dec_lt}
use cloud_native_tour.Wire.Varint.{read_varint}
use cloud_native_tour.Wire.Varint.Read.{read_varint-ne-stuck, read_varint_takes}
use cloud_native_tour.Wire.Skip.{
  skip_varint_loop, skip_bytes, skip_value, skip_round, skip_loop, skip_generated, at_depth,
}

skip_varint_loop-ne-stuck :
    (fuel : ℕ) (input : List ℕ) (i shift : ℕ)
    → 71 ≤ shift + 7 * fuel
    → 1 ≤ fuel
    → skip_varint_loop fuel input i shift ≢ stuck
unfolding skip_varint_loop
skip_varint_loop-ne-stuck zero input i shift h p e = absurd (omega arith)
skip_varint_loop-ne-stuck (suc zero) input i shift h p e = ground arith
skip_varint_loop-ne-stuck (suc (suc fuel)) input i shift h p e =
    ground (arith, skip_varint_loop-ne-stuck (suc fuel) input (i + 1) (shift + 7))

skip_varint_loop_takes :
    (fuel : ℕ) (input : List ℕ) (i shift j : ℕ)
    → skip_varint_loop fuel input i shift ≡ ok j
    → (i < j) × (j ≤ length input)
unfolding skip_varint_loop
skip_varint_loop_takes zero input i shift j e = cc
skip_varint_loop_takes (suc fuel) input i shift j e = elim (Option-cases (get_elem? input i)) [
  | inl n ↦ ground arith
  | inr (b, s) ↦
      ground
        (arith, get_elem?-lt input i s, skip_varint_loop_takes fuel input (i + 1) (shift + 7) j)
]

skip_bytes-ne-stuck : (input : List ℕ) (i : ℕ) → skip_bytes input i ≢ stuck
unfolding skip_bytes
skip_bytes-ne-stuck input i e = ground (arith, read_varint-ne-stuck input i)

-- `int` sums do not wrap here: the place is within the slice, and the number read is not negative.
skip_bytes_takes :
    (input : List ℕ) (i j : ℕ) → length input < 2 ^ 63 → skip_bytes input i ≡ ok j → i < j
unfolding skip_bytes
skip_bytes_takes input i j h e =
    let (p, r, q) = >>=-eq-ok (read_varint input i) _ e in
    let (small, s) = guard-eq-ok (leb (2 ^ 63) p.0) _ _ q in
    ground (arith, read_varint_takes input i p.0 p.1 r)

skip_value-ne-stuck :
    (input : List ℕ) (wire_type i depth : ℕ) → skip_value input wire_type i depth ≢ stuck
unfolding skip_value
skip_value-ne-stuck input wire_type i depth e =
    ground (arith, skip_varint_loop-ne-stuck 11 input i 0, skip_bytes-ne-stuck input i)

skip_value_takes :
    (input : List ℕ) (wire_type i depth j d : ℕ)
    → length input < 2 ^ 63
    → i ≤ length input
    → skip_value input wire_type i depth ≡ ok (j, d)
    → i ≤ j
unfolding skip_value
skip_value_takes input wire_type i depth j d h hi e =
    ground (arith, skip_varint_loop_takes 11 input i 0 j, skip_bytes_takes input i j h)

skip_round-ne-stuck : (input : List ℕ) (i depth : ℕ) → skip_round input i depth ≢ stuck
unfolding skip_round
skip_round-ne-stuck input i depth =
    >>=-ne-stuck (read_varint input i) _ (read_varint-ne-stuck input i) λ p r.
      >>=-ne-stuck (skip_value input (bit_and p.0 0x7) p.1 depth) _
        (skip_value-ne-stuck input (bit_and p.0 0x7) p.1 depth) λ q s. λ e. ground arith

-- A round moves on, and stays within the non-negative numbers.
pub skip_round_takes :
    (input : List ℕ) (i depth j d : ℕ)
    → length input < 2 ^ 63
    → skip_round input i depth ≡ ok (j, d)
    → (i < j) × (j < 2 ^ 63)
unfolding skip_round
skip_round_takes input i depth j d h e =
    let (p, r, q) = >>=-eq-ok (read_varint input i) _ e in
    let (s, t, u) = >>=-eq-ok (skip_value input (bit_and p.0 0x7) p.1 depth) _ q in
    let (v, w) = guard-eq-ok (leb (2 ^ 63) s.0) _ _ u in
    ground (
      arith,
      read_varint_takes input i p.0 p.1 r,
      skip_value_takes input (bit_and p.0 0x7) p.1 depth s.0 s.1 h
          (omega (arith, read_varint_takes input i p.0 p.1 r)) t,
    )

pub skip_loop_step :
    (fuel : ℕ) (input : List ℕ) (i depth : ℕ)
    → i < length input
    → skip_loop (suc fuel) input i depth
      ≡ (skip_round input i depth >>= λ p. at_depth p (skip_loop fuel input))
unfolding skip_loop
skip_loop_step fuel input i depth h = rw (lt→ltb i (length input) h, skip_loop)

skip_loop_done :
    (fuel : ℕ) (input : List ℕ) (i depth : ℕ)
    → length input ≤ i
    → skip_loop (suc fuel) input i depth ≡ err unexpected_eof
unfolding skip_loop
skip_loop_done fuel input i depth h = rw (ltb-eq-false i (length input) h, skip_loop)

skip_loop-ne-stuck :
    (fuel : ℕ) (input : List ℕ) (i depth : ℕ)
    → length input < 2 ^ 63
    → length input < i + fuel
    → 1 ≤ fuel
    → skip_loop fuel input i depth ≢ stuck
skip_loop-ne-stuck zero input i depth h hf p e = absurd (omega arith)
skip_loop-ne-stuck (suc fuel) input i depth h hf p e = elim (dec_lt i (length input)) [
  | no done ↦ cc (e, skip_loop_done fuel input i depth (omega arith))
  | yes more ↦
      >>=-ne-stuck (skip_round input i depth) _ (skip_round-ne-stuck input i depth)
        (after (λ k d. skip_loop-ne-stuck fuel input k (suc d) h) more)
        (sym (skip_loop_step fuel input i depth more) ∙ e)
]
  where
    after :
        ((k d : ℕ) → length input < k + fuel → 1 ≤ fuel → skip_loop fuel input k (suc d) ≢ stuck)
        → i < length input
        → (p : ℕ × ℕ) → skip_round input i depth ≡ ok p
        → at_depth p (skip_loop fuel input) ≢ stuck
    after again more (k, zero) r x = cc
    after again more (k, suc d) r x =
        again k d (omega (arith, skip_round_takes input i depth k (suc d) h r)) (omega arith) x

skip_loop_takes :
    (fuel : ℕ) (input : List ℕ) (i depth j : ℕ)
    → length input < 2 ^ 63
    → skip_loop fuel input i depth ≡ ok j
    → (i < j) × (j < 2 ^ 63)
skip_loop_takes zero input i depth j h e = unfold skip_loop in cc
skip_loop_takes (suc fuel) input i depth j h e = elim (dec_lt i (length input)) [
  | no done ↦ cc (e, skip_loop_done fuel input i depth (omega arith))
  | yes more ↦
      let (p, r, q) =
        >>=-eq-ok (skip_round input i depth) _ (sym (skip_loop_step fuel input i depth more) ∙ e) in
      after (λ k d. skip_loop_takes fuel input k (suc d) j h) p r q
]
  where
    after :
        ((k d : ℕ) → skip_loop fuel input k (suc d) ≡ ok j → (k < j) × (j < 2 ^ 63))
        → (p : ℕ × ℕ) → skip_round input i depth ≡ ok p
        → at_depth p (skip_loop fuel input) ≡ ok j
        → (i < j) × (j < 2 ^ 63)
    after again (k, zero) r q = ground (arith, skip_round_takes input i depth k 0 h r)
    after again (k, suc d) r q =
        ground (arith, again k d q, skip_round_takes input i depth k (suc d) h r)

-- `skipGenerated` ends on every input shorter than 2 ^ 63 bytes: the fuel never runs out.
pub skip_generated-ne-stuck :
    (input : List ℕ) → length input < 2 ^ 63 → skip_generated input ≢ stuck
unfolding skip_generated
skip_generated-ne-stuck input h =
    skip_loop-ne-stuck (suc (length input)) input 0 0 h (omega arith) (omega arith)

-- Where `skipGenerated` succeeds on an input shorter than 2 ^ 63 bytes, it skips at least one byte,
-- and the number it returns is not negative as an int.
pub skip_generated_takes :
    (input : List ℕ) (n : ℕ)
    → length input < 2 ^ 63
    → skip_generated input ≡ ok n
    → (1 ≤ n) × (n < 2 ^ 63)
unfolding skip_generated
skip_generated_takes input n h e = skip_loop_takes (suc (length input)) input 0 0 n h e
