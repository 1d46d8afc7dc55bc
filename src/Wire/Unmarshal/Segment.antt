-- ===== src/Wire/Unmarshal/Segment.antt =====
-- Reading back a length-delimited field: its tag byte, the length and the payload.
use cloud_native_tour.Common.{
  ℕ, ◌+◌, ◌/◌, ◌%◌, ◌^◌, ◌≤◌, ◌<◌, ◌≡◌, ◌≢◌, bit_and_seven, List, [], ◌∷◌, ◌++◌, lt→ltb, length,
  length-append, arith,
}
use cloud_native_tour.Wire.Result.{ok}
use cloud_native_tour.Wire.Slice.{
  Holds, Holds-first, Holds-second, Holds-length, Holds-slice, slice,
}
use cloud_native_tour.Wire.Varint.Groups.{groups, varint}
use cloud_native_tour.Wire.Varint.Read.{read_varint-varint}
use cloud_native_tour.Wire.Unmarshal.{read_segment, read_delimited, read_tag}

-- A field with the tag byte `tag`: the length of the payload, then the payload.
unfoldable pub field : ℕ → List ℕ → List ℕ
field tag payload = tag ∷ varint (length payload) ++ payload

varint_byte : (t : ℕ) → t < 128 → varint t ≡ t ∷ []
unfolding varint groups
varint_byte t h = rw (lt→ltb t 128 h)

-- Where the payload of a field at `i` begins and ends.
abbrev pub payload_start : ℕ → List ℕ → ℕ
payload_start i payload = i + 1 + length (varint (length payload))

pub length-field :
    (tag : ℕ) (payload : List ℕ)
    → length (field tag payload) ≡ 1 + length payload + length (varint (length payload))
unfolding field
length-field tag payload = omega (arith, length-append (varint (length payload)) payload)

-- A tag byte, whatever stands behind it.
pub read_tag-byte :
    (input : List ℕ) (i tag : ℕ) (rest : List ℕ)
    → Holds input i (tag ∷ rest)
    → tag < 128
    → 8 ≤ tag
    → tag % 8 ≢ 4
    → read_tag input i ≡ ok (tag / 8, tag % 8, i + 1)
unfolding read_tag
read_tag-byte input i tag rest h small big not_group =
    let byte : Holds input i (varint tag) =
      rw (varint_byte tag small) (Holds-first (tag ∷ []) rest h) in
    let r = rw (varint_byte tag small) at (read_varint-varint input i tag (omega arith) byte) in
    rw (r, bit_and_seven tag) (ground arith)

module _ {input : List ℕ} {i : ℕ} (tag : ℕ) (payload : List ℕ)
    (h : Holds input i (field tag payload)) where
  pub field-payload : Holds input (payload_start i payload) payload
  unfolding field
  field-payload = Holds-second (varint (length payload)) payload (Holds-second (tag ∷ []) _ h)

  pub read_segment-field :
      length input < 2 ^ 63
      → read_segment input (i + 1)
        ≡ ok (payload_start i payload, payload_start i payload + length payload)
  unfolding field read_segment
  read_segment-field fits =
      let rest = Holds-second (tag ∷ []) (varint (length payload) ++ payload) h in
      let end = Holds-length payload field-payload in
      let r =
        read_varint-varint input (i + 1) (length payload) (omega arith)
          (Holds-first (varint (length payload)) payload rest) in
      rw r (ground arith)

  pub read_delimited-field :
      (field_num : ℕ)
      → length input < 2 ^ 63
      → read_delimited input field_num 2 (i + 1)
        ≡ ok (payload_start i payload, payload_start i payload + length payload)
  unfolding read_delimited
  read_delimited-field field_num fits = read_segment-field fits

  pub slice-field :
      slice input (payload_start i payload) (payload_start i payload + length payload) ≡ payload
  slice-field = Holds-slice payload field-payload

  pub field-end : payload_start i payload + length payload ≡ i + length (field tag payload)
  field-end = omega (arith, length-field tag payload)
