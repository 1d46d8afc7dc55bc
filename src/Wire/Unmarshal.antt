-- ===== src/Wire/Unmarshal.antt =====
-- The frame of every generated `Unmarshal`: the loop over tags, the segment of a length-delimited
-- field, and the default case. A message supplies its switch on the field number.
pub mod Total
pub mod Segment
pub mod Reads
use cloud_native_tour.Common.{
  ℕ, zero, suc, ◌+◌, ◌/◌, ◌%◌, ◌^◌, bit_and, List, true, false, ◌||◌, leb, ltb, ◌==◌, length, drop,
}
use cloud_native_tour.Wire.Result.{
  Result, ok, err, stuck, guard, unexpected_eof, invalid_length, end_group_for_non_group,
  illegal_tag, wrong_wire_type, ◌>>=◌,
}
use cloud_native_tour.Wire.Varint.{read_varint}
use cloud_native_tour.Wire.Skip.{negative, add64, skip_generated}

-- A length and the segment that it measures: its first place and the place behind it.
unfoldable pub read_segment : List ℕ → ℕ → Result (ℕ × ℕ)
read_segment input i = do
  (n, lo) ← read_varint input i
  guard (negative n) invalid_length (
      let hi = add64 lo n in
      guard (negative hi) invalid_length
        (guard (ltb (length input) hi) unexpected_eof (ok (lo, hi))))

-- `if wireType != 2 { return … }` and the segment, for the field `field_num`.
unfoldable pub read_delimited : List ℕ → ℕ → ℕ → ℕ → Result (ℕ × ℕ)
unfolding read_segment
read_delimited input field_num wire_type i = elim (wire_type == 2) [
  | true ↦ read_segment input i
  | false ↦ err (wrong_wire_type field_num wire_type)
]

-- `default`: the field that begins at `pre` is skipped, tag included.
unfoldable pub skip_field : List ℕ → ℕ → Result ℕ
skip_field input pre = do
  n ← skip_generated (drop pre input)
  guard (negative n || negative (add64 pre n)) invalid_length
      (guard (ltb (length input) (add64 pre n)) unexpected_eof (ok (add64 pre n)))

-- A tag: field number, wire type and the place behind it. `int32(wire >> 3)` must be positive.
unfoldable pub read_tag : List ℕ → ℕ → Result (ℕ × ℕ × ℕ)
read_tag input i = do
  (wire, j) ← read_varint input i
  let field_num = wire / 8 % 2 ^ 32
  let wire_type = bit_and wire 0x7
  guard (wire_type == 4) end_group_for_non_group (
      guard (field_num == 0 || leb (2 ^ 31) field_num) (illegal_tag field_num wire)
        (ok (field_num, wire_type, j)))

-- What the switch does: from the place before the tag, the field number, the wire type and the place
-- behind the tag, the message and the new place.
abbrev pub Switch : Type 0 → Type 0
Switch M = List ℕ → ℕ → ℕ → ℕ → ℕ → M → Result (M × ℕ)

unfoldable pub unmarshal_round : {M : Type 0} → Switch M → List ℕ → ℕ → M → Result (M × ℕ)
unfolding read_tag
unmarshal_round switch input i m = do
  (field_num, wire_type, j) ← read_tag input i
  switch input i field_num wire_type j m

-- `for iNdEx < l { … }; if iNdEx > l { return io.ErrUnexpectedEOF }; return nil`
unfoldable pub unmarshal_loop : {M : Type 0} → Switch M → ℕ → List ℕ → ℕ → M → Result M
unmarshal_loop switch zero input i m = stuck
unmarshal_loop switch (suc fuel) input i m = elim (ltb i (length input)) [
  | false ↦ guard (ltb (length input) i) unexpected_eof (ok m)
  | true ↦ unmarshal_round switch input i m >>= λ (m', j). unmarshal_loop switch fuel input j m'
]

-- A round takes a byte at least, so the fuel is enough.
unfoldable pub unmarshal_with : {M : Type 0} → Switch M → List ℕ → M → Result M
unmarshal_with switch input m = unmarshal_loop switch (suc (length input)) input 0 m
