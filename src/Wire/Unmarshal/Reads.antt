-- ===== src/Wire/Unmarshal/Reads.antt =====
-- `Reads switch m xs m'`: where `xs` stands in an input, the loop goes through it and takes the message
-- from `m` to `m'`.
use cloud_native_tour.Common.{
  ℕ, zero, suc, ◌+◌, ◌/◌, ◌%◌, ◌^◌, ◌≤◌, ◌<◌, ◌≡◌, ◌≢◌, ap, ◌∙◌, List, [], ◌∷◌, ◌++◌, length,
  length-append, arith,
}
use cloud_native_tour.Wire.Result.{ok}
use cloud_native_tour.Wire.Slice.{Holds, Holds-self, Holds-first, Holds-second, Holds-length, slice}
use cloud_native_tour.Wire.Unmarshal.{
  Switch, read_delimited, unmarshal_round, unmarshal_loop, unmarshal_with,
}
use cloud_native_tour.Wire.Unmarshal.Total.{unmarshal_loop_step, unmarshal_loop_end}
use cloud_native_tour.Wire.Unmarshal.Segment.{
  field, payload_start, read_tag-byte, read_delimited-field, slice-field, field-end,
}

pub record Reads {M : Type 0} (switch : Switch M) (m : M) (xs : List ℕ) (m' : M) : Type 0 where
  pub reads :
      (input : List ℕ) (i fuel : ℕ)
      → length input < 2 ^ 63
      → Holds input i xs
      → length xs ≤ fuel
      → (fuel' : ℕ) × (fuel ≤ fuel' + length xs)
        × (unmarshal_loop switch fuel input i m
            ≡ unmarshal_loop switch fuel' input (i + length xs) m')

module _ {M : Type 0} {switch : Switch M} where
  pub Reads-nil : (m : M) → Reads switch m [] m
  Reads-nil m = record {
    reads = λ input i fuel fits h enough.
        let same : i ≡ i + 0 = omega arith in
        (fuel, omega arith, ap (λ t. unmarshal_loop switch fuel input t m) same);
  }

  pub Reads-append :
      {m m' m'' : M} {xs ys : List ℕ}
      → Reads switch m xs m'
      → Reads switch m' ys m''
      → Reads switch m (xs ++ ys) m''
  Reads-append {m} {m'} {m''} {xs} {ys} r s = record {
    reads = λ input i fuel fits h enough.
        let total = length-append xs ys in
        let (f, p, e) = r.reads input i fuel fits (Holds-first xs ys h) (omega (arith, total)) in
        let (g, q, d) =
          s.reads input (i + length xs) f fits (Holds-second xs ys h) (omega (arith, total)) in
        let place : i + length xs + length ys ≡ i + length (xs ++ ys) = omega (arith, total) in
        (g, omega (arith, total), e ∙ d ∙ ap (λ t. unmarshal_loop switch g input t m'') place);
  }

  -- A switch that handles what stands behind a tag byte reads both.
  pub Reads-tag :
      (tag : ℕ) {m m' : M} {rest : List ℕ}
      → tag < 128
      → 8 ≤ tag
      → tag % 8 ≢ 4
      → ((input : List ℕ) (pre : ℕ)
          → length input < 2 ^ 63
          → Holds input pre (tag ∷ rest)
          → switch input pre (tag / 8) (tag % 8) (pre + 1) m ≡ ok (m', pre + length (tag ∷ rest)))
      → Reads switch m (tag ∷ rest) m'
  unfolding unmarshal_round
  Reads-tag tag {m} {m'} {rest} small big not_group handles = record { reads = reads }
    where
      round :
          (input : List ℕ) (i : ℕ)
          → length input < 2 ^ 63
          → Holds input i (tag ∷ rest)
          → unmarshal_round switch input i m ≡ ok (m', i + length (tag ∷ rest))
      round input i fits h =
          rw (read_tag-byte input i tag rest h small big not_group) (handles input i fits h)

      reads :
          (input : List ℕ) (i fuel : ℕ)
          → length input < 2 ^ 63
          → Holds input i (tag ∷ rest)
          → length (tag ∷ rest) ≤ fuel
          → (fuel' : ℕ) × (fuel ≤ fuel' + length (tag ∷ rest))
            × (unmarshal_loop switch fuel input i m
                ≡ unmarshal_loop switch fuel' input (i + length (tag ∷ rest)) m')
      reads input i zero fits h enough = absurd (omega arith)
      reads input i (suc fuel) fits h enough =
          let inside = Holds-length (tag ∷ rest) h in
          (
            fuel,
            omega arith,
            unmarshal_loop_step switch fuel input i m (omega (arith, inside))
                ∙ rw (round input i fits h),
          )

  -- A switch that handles the segment of a known field reads the field.
  pub Reads-field :
      (tag : ℕ) {m m' : M} {payload : List ℕ}
      → tag < 128
      → 8 ≤ tag
      → tag % 8 ≡ 2
      → ((input : List ℕ) (pre j lo : ℕ)
          → read_delimited input (tag / 8) 2 j ≡ ok (lo, lo + length payload)
          → slice input lo (lo + length payload) ≡ payload
          → switch input pre (tag / 8) 2 j m ≡ ok (m', lo + length payload))
      → Reads switch m (field tag payload) m'
  unfolding field
  Reads-field tag {m} {m'} {payload} small big delimited handles =
      Reads-tag tag small big (omega arith) λ input pre fits h. rw delimited (
        handles input pre (pre + 1) (payload_start pre payload)
          (read_delimited-field tag payload h (tag / 8) fits) (slice-field tag payload h)
        ∙ ap (λ k. ok (m', k)) (field-end tag payload h))

-- An input that is read through to its end gives the message.
pub unmarshal_with-Reads :
    {M : Type 0} {switch : Switch M} {m m' : M} {input : List ℕ}
    → length input < 2 ^ 63
    → Reads switch m input m'
    → unmarshal_with switch input m ≡ ok m'
unfolding unmarshal_with
unmarshal_with-Reads {switch} {m} {m'} {input} fits r =
    let (fuel, p, e) = r.reads input 0 (suc (length input)) fits (Holds-self input) (omega arith) in
    e ∙ unmarshal_loop_end switch fuel input (0 + length input) m' (omega arith) (omega arith)
