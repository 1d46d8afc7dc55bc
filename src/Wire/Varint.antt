-- ===== src/Wire/Varint.antt =====
-- Base-128 numbers: `sovGenerated`, `encodeVarintGenerated` and the loop that every `Unmarshal` and
-- `skipGenerated` repeats inline to read one.
pub mod Groups
pub mod Read
pub mod Size
pub mod Encode
pub mod Int32
use cloud_native_tour.Common.{
  ℕ, zero, suc, ◌+◌, ◌-◌, ◌*◌, ◌/◌, ◌%◌, ◌^◌, bit_and, bit_or, List, true, false, none, some, leb,
  ltb, ◌==◌, if◌then◌else◌, length, get_elem?, set,
}
use cloud_native_tour.Wire.Result.{
  Result, ok, err, panic, stuck, int_overflow, unexpected_eof, ◌>>=◌,
}

-- `math/bits.Len64`: the position of the highest bit set, over at most `k` bits.
unfoldable pub len_bits : ℕ → ℕ → ℕ
len_bits zero x = 0
len_bits (suc k) x = let rest = len_bits k (x / 2) in if x == 0 then 0 else suc rest

-- The number of bytes that `x` takes.
unfoldable pub sov_generated : ℕ → ℕ
unfolding len_bits
sov_generated x = (len_bits 64 (bit_or x 1) + 6) / 7

-- `dAtA[i] = v`
unfoldable pub write : List ℕ → ℕ → ℕ → Result (List ℕ)
write buffer i v = if ltb i (length buffer) then ok (set buffer i v) else panic

-- The loop of `encodeVarintGenerated`, and the write behind it.
unfoldable pub encode_loop : ℕ → List ℕ → ℕ → ℕ → Result (List ℕ)
unfolding write
encode_loop zero buffer offset v = stuck
encode_loop (suc fuel) buffer offset v = elim (leb 128 v) [
  | true ↦ write buffer offset (bit_or (bit_and v 0x7f) 0x80 % 256) >>= λ filled.
      encode_loop fuel filled (offset + 1) (v / 128)
  | false ↦ write buffer offset (v % 256)
]

-- A negative offset panics at the first write. Ten rounds are enough for a uint64.
unfoldable pub encode_varint_generated : List ℕ → ℕ → ℕ → Result (List ℕ × ℕ)
unfolding encode_loop sov_generated
encode_varint_generated buffer offset v =
    let base = offset - sov_generated v in
    if ltb offset (sov_generated v)
    then panic
    else do filled ← encode_loop 10 buffer base v; ok (filled, base)

-- The inline loop `for shift := uint(0); ; shift += 7`, over a uint64 or over an int of the same bits.
-- It returns the number and the new `iNdEx`.
unfoldable pub read_loop : ℕ → List ℕ → ℕ → ℕ → ℕ → Result (ℕ × ℕ)
read_loop zero input i shift acc = stuck
read_loop (suc fuel) input i shift acc = elim (leb 64 shift) [
  | true ↦ err int_overflow
  | false ↦ elim (get_elem? input i) [
    | none ↦ err unexpected_eof
    | some b ↦
        let acc' = bit_or acc (bit_and b 0x7f * 2 ^ shift % 2 ^ 64) in
        elim (ltb b 0x80) [
          | true ↦ ok (acc', i + 1)
          | false ↦ read_loop fuel input (i + 1) (shift + 7) acc'
        ]
  ]
]

-- The shift passes 63 in the eleventh round.
unfoldable pub read_varint : List ℕ → ℕ → Result (ℕ × ℕ)
unfolding read_loop
read_varint input i = read_loop 11 input i 0 0
