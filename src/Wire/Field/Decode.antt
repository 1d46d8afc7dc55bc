-- ===== src/Wire/Field/Decode.antt =====
-- The cases of a switch: they end, they move on, and they read the field that stands in the input.
use cloud_native_tour.Common.{ℕ, ◌/◌, ◌%◌, ◌^◌, ◌≤◌, ◌<◌, ◌≡◌, ◌≢◌, ◌∙◌, List, length, arith}
use cloud_native_tour.Wire.Result.{Result, ok, stuck, >>=-eq-ok, >>=-ne-stuck}
use cloud_native_tour.Wire.Slice.{slice, length-slice-le}
use cloud_native_tour.Wire.Unmarshal.{Switch, read_delimited, skip_field}
use cloud_native_tour.Wire.Unmarshal.Total.{
  read_delimited-ne-stuck, read_delimited_takes, skip_field-ne-stuck, skip_field_takes,
}
use cloud_native_tour.Wire.Unmarshal.Segment.{field}
use cloud_native_tour.Wire.Unmarshal.Reads.{Reads, Reads-field}
use cloud_native_tour.Wire.Field.{text_case, message_case, default_case}

module _ {M : Type 0} (input : List ℕ) (f w j : ℕ) where
  pub text_case-ne-stuck : (update : List ℕ → M) → text_case update input f w j ≢ stuck
  unfolding text_case
  text_case-ne-stuck update =
      >>=-ne-stuck (read_delimited input f w j) _ (read_delimited-ne-stuck input f w j)
        (λ p r e. cc)

  pub text_case_takes :
      (update : List ℕ → M) (m : M) (k : ℕ)
      → length input < 2 ^ 63
      → text_case update input f w j ≡ ok (m, k)
      → j < k
  unfolding text_case
  text_case_takes update m k h e =
      let (p, r, q) = >>=-eq-ok (read_delimited input f w j) _ e in
      ground (arith, read_delimited_takes input f w j p.0 p.1 h r)

  pub message_case-ne-stuck :
      {N : Type 0} (unmarshal : List ℕ → Result N) (update : N → M)
      → length input < 2 ^ 63
      → ((xs : List ℕ) → length xs < 2 ^ 63 → unmarshal xs ≢ stuck)
      → message_case unmarshal update input f w j ≢ stuck
  unfolding message_case
  message_case-ne-stuck unmarshal update h ends =
      >>=-ne-stuck (read_delimited input f w j) _ (read_delimited-ne-stuck input f w j) (λ p r.
        >>=-ne-stuck (unmarshal (slice input p.0 p.1)) _
          (ends (slice input p.0 p.1) (omega (arith, length-slice-le input p.0 p.1))) (λ n s e. cc))

  pub message_case_takes :
      {N : Type 0} (unmarshal : List ℕ → Result N) (update : N → M) (m : M) (k : ℕ)
      → length input < 2 ^ 63
      → message_case unmarshal update input f w j ≡ ok (m, k)
      → j < k
  unfolding message_case
  message_case_takes unmarshal update m k h e =
      let (p, r, q) = >>=-eq-ok (read_delimited input f w j) _ e in
      let (n, s, t) = >>=-eq-ok (unmarshal (slice input p.0 p.1)) _ q in
      ground (arith, read_delimited_takes input f w j p.0 p.1 h r)

module _ {M : Type 0} (input : List ℕ) (pre : ℕ) (m : M) where
  pub default_case-ne-stuck : length input < 2 ^ 63 → default_case input pre m ≢ stuck
  unfolding default_case
  default_case-ne-stuck h =
      >>=-ne-stuck (skip_field input pre) _ (skip_field-ne-stuck input pre h) (λ k r e. cc)

  pub default_case_takes :
      (m' : M) (k : ℕ)
      → length input < 2 ^ 63
      → pre < length input
      → default_case input pre m ≡ ok (m', k)
      → pre < k
  unfolding default_case
  default_case_takes m' k h p e =
      let (k', r, q) = >>=-eq-ok (skip_field input pre) _ e in
      ground (arith, skip_field_takes input pre k' h p r)

-- A switch that answers the field by a text case reads it, and by a message case if the payload decodes.
module _ {M : Type 0} {switch : Switch M} (tag : ℕ) (payload : List ℕ) {m : M} where
  pub Reads-text_field :
      (update : List ℕ → M)
      → tag < 128
      → 8 ≤ tag
      → tag % 8 ≡ 2
      → ((input : List ℕ) (pre j : ℕ)
          → switch input pre (tag / 8) 2 j m ≡ text_case update input (tag / 8) 2 j)
      → Reads switch m (field tag payload) (update payload)
  unfolding text_case
  Reads-text_field update small big delimited answers =
      Reads-field tag small big delimited (λ input pre j lo r s. answers input pre j ∙ rw (r, s))

  pub Reads-message_field :
      {N : Type 0} (unmarshal : List ℕ → Result N) (update : N → M) (n : N)
      → tag < 128
      → 8 ≤ tag
      → tag % 8 ≡ 2
      → unmarshal payload ≡ ok n
      → ((input : List ℕ) (pre j : ℕ)
          → switch input pre (tag / 8) 2 j m ≡ message_case unmarshal update input (tag / 8) 2 j)
      → Reads switch m (field tag payload) (update n)
  unfolding message_case
  Reads-message_field unmarshal update n small big delimited decodes answers =
      Reads-field tag small big delimited
        (λ input pre j lo r s. answers input pre j ∙ rw r (rw (s, decodes)))
