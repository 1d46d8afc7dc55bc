-- ===== src/Wire/Skip.antt =====
-- `skipGenerated`: how many bytes the first field of a slice takes, whatever its kind.
pub mod Total
use cloud_native_tour.Common.{
  ℕ, zero, suc, ◌+◌, ◌-◌, ◌/◌, ◌%◌, ◌^◌, bit_and, Bool, List, true, false, none, some, leb, ltb,
  ◌==◌, if◌then◌else◌, length, get_elem?,
}
use cloud_native_tour.Wire.Result.{
  Result, ok, err, stuck, guard, int_overflow, unexpected_eof, invalid_length,
  unexpected_end_of_group, illegal_wire_type, ◌>>=◌,
}
use cloud_native_tour.Wire.Varint.{read_varint}

-- A Go `int` is its 64-bit pattern; the patterns from 2 ^ 63 on are the negative numbers.
abbrev pub negative : ℕ → Bool
negative n = leb (2 ^ 63) n

abbrev pub add64 : ℕ → ℕ → ℕ
add64 a b = (a + b) % 2 ^ 64

-- `case 0`: the bytes of a number are passed over.
unfoldable pub skip_varint_loop : ℕ → List ℕ → ℕ → ℕ → Result ℕ
skip_varint_loop zero input i shift = stuck
skip_varint_loop (suc fuel) input i shift = elim (leb 64 shift) [
  | true ↦ err int_overflow
  | false ↦ elim (get_elem? input i) [
    | none ↦ err unexpected_eof
    | some b ↦ elim (ltb b 0x80) [
      | true ↦ ok (i + 1)
      | false ↦ skip_varint_loop fuel input (i + 1) (shift + 7)
    ]
  ]
]

-- `case 2`: a length and that many bytes.
unfoldable pub skip_bytes : List ℕ → ℕ → Result ℕ
skip_bytes input i = do
  (n, j) ← read_varint input i
  guard (negative n) invalid_length (ok (add64 j n))

-- The switch on the wire type: the new `iNdEx` and `depth`.
unfoldable pub skip_value : List ℕ → ℕ → ℕ → ℕ → Result (ℕ × ℕ)
unfolding skip_varint_loop skip_bytes
skip_value input wire_type i depth =
    if wire_type == 0
    then (do j ← skip_varint_loop 11 input i 0; ok (j, depth))
    else if wire_type == 1
    then ok (add64 i 8, depth)
    else if wire_type == 2
    then (do j ← skip_bytes input i; ok (j, depth))
    else if wire_type == 3
    then ok (i, depth + 1)
    else if wire_type == 4
    then guard (depth == 0) unexpected_end_of_group (ok (i, depth - 1))
    else if wire_type == 5
    then ok (add64 i 4, depth)
    else err (illegal_wire_type wire_type)

-- One round: the tag and its value.
unfoldable pub skip_round : List ℕ → ℕ → ℕ → Result (ℕ × ℕ)
unfolding skip_value
skip_round input i depth = do
  (wire, j) ← read_varint input i
  (k, depth') ← skip_value input (bit_and wire 0x7) j depth
  guard (negative k) invalid_length (ok (k, depth'))

-- `if depth == 0 { return iNdEx, nil }`, or the next round.
abbrev pub at_depth : ℕ × ℕ → (ℕ → ℕ → Result ℕ) → Result ℕ
at_depth (k, zero) again = ok k
at_depth (k, suc d) again = again k (suc d)

unfoldable pub skip_loop : ℕ → List ℕ → ℕ → ℕ → Result ℕ
skip_loop zero input i depth = stuck
skip_loop (suc fuel) input i depth = elim (ltb i (length input)) [
  | false ↦ err unexpected_eof
  | true ↦ skip_round input i depth >>= λ p. at_depth p (skip_loop fuel input)
]

-- Every round takes a byte at least, so the fuel is enough.
unfoldable pub skip_generated : List ℕ → Result ℕ
skip_generated input = skip_loop (suc (length input)) input 0 0
