-- ===== src/Wire/Unmarshal/Total.antt =====
-- A generated `Unmarshal` ends on every input, if its switch does and moves on.
use cloud_native_tour.Common.{
  ℕ, zero, suc, ◌+◌, ◌^◌, ◌≤◌, ◌<◌, ◌≡◌, ◌≢◌, sym, ◌∙◌, List, lt→ltb, ltb-eq-false, length,
  length-drop, drop, arith,
}
use cloud_native_tour.Wire.Result.{ok, stuck, ◌>>=◌, >>=-eq-ok, >>=-ne-stuck}
use cloud_native_tour.Wire.Varint.{read_varint}
use cloud_native_tour.Wire.Varint.Read.{read_varint-ne-stuck, read_varint_takes}
use cloud_native_tour.Wire.Skip.{skip_generated}
use cloud_native_tour.Wire.Skip.Total.{skip_generated-ne-stuck, skip_generated_takes}
use cloud_native_tour.Wire.Unmarshal.{
  Switch, read_segment, read_delimited, skip_field, read_tag, unmarshal_round, unmarshal_loop,
  unmarshal_with,
}
use native.Mathlib.Decide.{dec_lt}

pub read_segment-ne-stuck : (input : List ℕ) (i : ℕ) → read_segment input i ≢ stuck
unfolding read_segment
read_segment-ne-stuck input i e = ground (arith, read_varint-ne-stuck input i)

-- A segment lies behind its length and within the input.
pub read_segment_takes :
    (input : List ℕ) (i lo hi : ℕ)
    → length input < 2 ^ 63
    → read_segment input i ≡ ok (lo, hi)
    → (i < lo) × (lo ≤ hi) × (hi ≤ length input)
unfolding read_segment
read_segment_takes input i lo hi h e =
    let (p, r, q) = >>=-eq-ok (read_varint input i) _ e in
    ground (arith, read_varint_takes input i p.0 p.1 r)

pub read_delimited-ne-stuck :
    (input : List ℕ) (field_num wire_type i : ℕ)
    → read_delimited input field_num wire_type i ≢ stuck
unfolding read_delimited
read_delimited-ne-stuck input field_num wire_type i e =
    ground (arith, read_segment-ne-stuck input i)

pub read_delimited_takes :
    (input : List ℕ) (field_num wire_type i lo hi : ℕ)
    → length input < 2 ^ 63
    → read_delimited input field_num wire_type i ≡ ok (lo, hi)
    → (i < lo) × (lo ≤ hi) × (hi ≤ length input)
unfolding read_delimited
read_delimited_takes input field_num wire_type i lo hi h e =
    ground (arith, read_segment_takes input i lo hi h)

pub skip_field-ne-stuck :
    (input : List ℕ) (pre : ℕ) → length input < 2 ^ 63 → skip_field input pre ≢ stuck
unfolding skip_field
skip_field-ne-stuck input pre h e =
    ground (arith, length-drop pre input, skip_generated-ne-stuck (drop pre input))

pub skip_field_takes :
    (input : List ℕ) (pre j : ℕ)
    → length input < 2 ^ 63
    → pre < length input
    → skip_field input pre ≡ ok j
    → (pre < j) × (j ≤ length input)
unfolding skip_field
skip_field_takes input pre j h hp e =
    let (n, r, q) = >>=-eq-ok (skip_generated (drop pre input)) _ e in
    ground (arith, length-drop pre input, skip_generated_takes (drop pre input) n)

pub read_tag-ne-stuck : (input : List ℕ) (i : ℕ) → read_tag input i ≢ stuck
unfolding read_tag
read_tag-ne-stuck input i e = ground (arith, read_varint-ne-stuck input i)

pub read_tag_takes :
    (input : List ℕ) (i f w j : ℕ) → read_tag input i ≡ ok (f, w, j) → (i < j) × (j ≤ length input)
unfolding read_tag
read_tag_takes input i f w j e =
    let (p, r, q) = >>=-eq-ok (read_varint input i) _ e in
    ground (arith, read_varint_takes input i p.0 p.1 r)

-- What the loop asks of a switch.
pub record IsTotal {M : Type 0} (switch : Switch M) : Type 0 where
  pub ends :
      (input : List ℕ) (i f w j : ℕ) (m : M)
      → length input < 2 ^ 63
      → switch input i f w j m ≢ stuck
  pub moves :
      (input : List ℕ) (i f w j : ℕ) (m m' : M) (k : ℕ)
      → length input < 2 ^ 63
      → i < j
      → j ≤ length input
      → switch input i f w j m ≡ ok (m', k)
      → i < k

module _ {M : Type 0} (switch : Switch M) where
  pub unmarshal_loop_step :
      (fuel : ℕ) (input : List ℕ) (i : ℕ) (m : M)
      → i < length input
      → unmarshal_loop switch (suc fuel) input i m
        ≡ (unmarshal_round switch input i m >>= λ (m', j). unmarshal_loop switch fuel input j m')
  unfolding unmarshal_loop
  unmarshal_loop_step fuel input i m h = rw (lt→ltb i (length input) h, unmarshal_loop)

  pub unmarshal_loop_end :
      (fuel : ℕ) (input : List ℕ) (i : ℕ) (m : M)
      → 1 ≤ fuel
      → i ≡ length input
      → unmarshal_loop switch fuel input i m ≡ ok m
  unfolding unmarshal_loop
  unmarshal_loop_end zero input i m p h = absurd (omega arith)
  unmarshal_loop_end (suc fuel) input i m p h =
      rw (ltb-eq-false i (length input) (omega arith), unmarshal_loop)
        (rw (ltb-eq-false (length input) i (omega arith)))

module _ {M : Type 0} (switch : Switch M) (total : IsTotal switch) where
  unmarshal_round-ne-stuck :
      (input : List ℕ) (i : ℕ) (m : M)
      → length input < 2 ^ 63
      → unmarshal_round switch input i m ≢ stuck
  unfolding unmarshal_round
  unmarshal_round-ne-stuck input i m h =
      >>=-ne-stuck (read_tag input i) _ (read_tag-ne-stuck input i)
        λ t r. total.ends input i t.0 t.1 t.2 m h

  unmarshal_round_takes :
      (input : List ℕ) (i k : ℕ) (m m' : M)
      → length input < 2 ^ 63
      → unmarshal_round switch input i m ≡ ok (m', k)
      → i < k
  unfolding unmarshal_round
  unmarshal_round_takes input i k m m' h e =
      let (t, r, q) = >>=-eq-ok (read_tag input i) _ e in
      let (lo, hi) = read_tag_takes input i t.0 t.1 t.2 r in
      total.moves input i t.0 t.1 t.2 m m' k h lo hi q

  unmarshal_loop_done-ne-stuck :
      (fuel : ℕ) (input : List ℕ) (i : ℕ) (m : M)
      → length input ≤ i
      → unmarshal_loop switch (suc fuel) input i m ≢ stuck
  unfolding unmarshal_loop
  unmarshal_loop_done-ne-stuck fuel input i m h =
      rw (ltb-eq-false i (length input) h, unmarshal_loop) (λ e. ground arith)

  unmarshal_loop-ne-stuck :
      (fuel : ℕ) (input : List ℕ) (i : ℕ) (m : M)
      → length input < 2 ^ 63
      → length input < i + fuel
      → 1 ≤ fuel
      → unmarshal_loop switch fuel input i m ≢ stuck
  unmarshal_loop-ne-stuck zero input i m h hf p e = absurd (omega arith)
  unmarshal_loop-ne-stuck (suc fuel) input i m h hf p e = elim (dec_lt i (length input)) [
    | no done ↦ unmarshal_loop_done-ne-stuck fuel input i m (omega arith) e
    | yes more ↦
        >>=-ne-stuck (unmarshal_round switch input i m) _ (unmarshal_round-ne-stuck input i m h)
          (λ p r.
            unmarshal_loop-ne-stuck fuel input p.1 p.0 h
              (omega (arith, unmarshal_round_takes input i p.1 m p.0 h r)) (omega arith))
          (sym (unmarshal_loop_step switch fuel input i m more) ∙ e)
  ]

  -- No input exhausts the fuel.
  pub unmarshal_with-ne-stuck :
      (input : List ℕ) (m : M) → length input < 2 ^ 63 → unmarshal_with switch input m ≢ stuck
  unfolding unmarshal_with
  unmarshal_with-ne-stuck input m h =
      unmarshal_loop-ne-stuck (suc (length input)) input 0 m h (omega arith) (omega arith)
