-- ===== src/Wire/Field/Laws.antt =====
-- Each group of statements against the bytes of its field.
use cloud_native_tour.Common.{ℕ, ◌+◌, ◌^◌, ◌<◌, ◌≡◌, List, length, arith}
use cloud_native_tour.Wire.Result.{Result}
use cloud_native_tour.Wire.Varint.Size.{sov_generated-varint}
use cloud_native_tour.Wire.Unmarshal.Segment.{field, length-field}
use cloud_native_tour.Wire.Buffer.Writes.{
  Writes, FillsEnd, Writes-bytes, Writes-varint, Writes-byte, Writes-message, Writes-then,
}
use cloud_native_tour.Wire.Field.{size_field, put_text_field, put_message_field}

pub size_field-field :
    (n tag : ℕ) (payload : List ℕ)
    → n + length (field tag payload) < 2 ^ 63
    → size_field n (length payload) ≡ n + length (field tag payload)
unfolding size_field
size_field-field n tag payload h =
    let l = length-field tag payload in
    let small : length payload < 2 ^ 64 = omega (arith, l) in
    omega (arith, l, sov_generated-varint (length payload) small)

pub Writes-text_field :
    (tag : ℕ) (s : List ℕ) → length s < 2 ^ 63 → Writes (put_text_field tag s) (field tag s)
unfolding put_text_field field
Writes-text_field tag s h =
    Writes-then (Writes-then (Writes-bytes s) (Writes-varint (length s) (omega arith)))
      (Writes-byte tag)

pub Writes-message_field :
    (tag : ℕ) {marshal : List ℕ → Result (List ℕ × ℕ)} {out : List ℕ}
    → length out < 2 ^ 63
    → FillsEnd marshal out
    → Writes (put_message_field tag marshal) (field tag out)
unfolding put_message_field field
Writes-message_field tag h f = Writes-then (Writes-message (omega arith) f) (Writes-byte tag)
