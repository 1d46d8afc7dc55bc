-- ===== src/Wire/Varint/Int32.antt =====
-- The numbers of Go type int32 in the generated codecs: `uint64(v)` on the way out, and on the way in
-- the inline loop over an int32, whose shifts drop what does not fit.
pub mod Laws
use cloud_native_tour.Common.{
  ℕ, zero, suc, ◌+◌, ◌-◌, ◌*◌, ◌%◌, ◌^◌, ℤ, pos, negsuc, bit_and, bit_or, List, true, false, none,
  some, leb, ltb, if◌then◌else◌, get_elem?,
}
use cloud_native_tour.Wire.Result.{Result, ok, err, stuck, int_overflow, unexpected_eof, ◌>>=◌}

-- The conversion of a signed number to uint64 keeps its bits, the sign extended.
unfoldable pub u64_of : ℤ → ℕ
u64_of (pos n) = n % 2 ^ 64
u64_of (negsuc n) = 2 ^ 64 - 1 - n % 2 ^ 64

-- The int32 whose bits are those of `w`.
unfoldable pub int32_of : ℕ → ℤ
int32_of w = if ltb w (2 ^ 31) then pos w else negsuc (2 ^ 32 - 1 - w)

-- `for shift := uint(0); ; shift += 7 { …; v |= int32(b&0x7F) << shift; … }`: the bits of `v`.
unfoldable pub read_int32_loop : ℕ → List ℕ → ℕ → ℕ → ℕ → Result (ℕ × ℕ)
read_int32_loop zero input i shift acc = stuck
read_int32_loop (suc fuel) input i shift acc = elim (leb 64 shift) [
  | true ↦ err int_overflow
  | false ↦ elim (get_elem? input i) [
    | none ↦ err unexpected_eof
    | some b ↦
        let acc' = bit_or acc (bit_and b 0x7f * 2 ^ shift % 2 ^ 32) in
        elim (ltb b 0x80) [
          | true ↦ ok (acc', i + 1)
          | false ↦ read_int32_loop fuel input (i + 1) (shift + 7) acc'
        ]
  ]
]

unfoldable pub read_int32 : List ℕ → ℕ → Result (ℤ × ℕ)
unfolding read_int32_loop int32_of
read_int32 input i = do (w, j) ← read_int32_loop 11 input i 0 0; ok (int32_of w, j)
