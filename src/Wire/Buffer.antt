-- ===== src/Wire/Buffer.antt =====
-- The generated `MarshalToSizedBuffer` fills its buffer from the end towards the front: `i` is the first
-- place written so far. Its statements as actions on the buffer and `i`.
pub mod Writes
use cloud_native_tour.Common.{
  ℕ, zero, suc, ◌+◌, ◌-◌, List, ◌++◌, ltb, if◌then◌else◌, length, take, drop, replicate,
}
use cloud_native_tour.Wire.Result.{Result, ok, panic, ◌>>=◌}
use cloud_native_tour.Wire.Varint.{write, encode_varint_generated}

pub record Buffer : Type 0 where
  pub bytes : List ℕ
  pub index : ℕ

abbrev pub Action : Type 0
Action = Buffer → Result Buffer

infixl 6 ◌then◌
abbrev pub ◌then◌ : Action → Action → Action
◌then◌ a b s = a s >>= b

-- `i -= len(s); copy(dAtA[i:], s)`; a negative `i` panics
unfoldable pub put_bytes : List ℕ → Action
put_bytes s b =
    let i = b.index - length s in
    if ltb b.index (length s)
    then panic
    else ok (record { bytes = take i b.bytes ++ (s ++ drop b.index b.bytes); index = i })

-- `i = encodeVarintGenerated(dAtA, i, uint64(n))`
unfoldable pub put_varint : ℕ → Action
put_varint n b = do
  (bytes, i) ← encode_varint_generated b.bytes b.index n
  ok (record { bytes = bytes; index = i })

-- `i--; dAtA[i] = tag`
put_before : ℕ → ℕ → List ℕ → Result Buffer
put_before tag zero bytes = panic
put_before tag (suc i) bytes = do
  bytes' ← write bytes i tag
  ok (record { bytes = bytes'; index = i })

unfoldable pub put_byte : ℕ → Action
unfolding put_before
put_byte tag b = put_before tag b.index b.bytes

-- `size, err := m.MarshalToSizedBuffer(dAtA[:i])`, which shares the bytes with `dAtA`, and `i -= size`,
-- which panics further on if it leaves a negative `i`; then the size.
unfoldable pub put_message : (List ℕ → Result (List ℕ × ℕ)) → Action
put_message marshal b = do
  (front, size) ← marshal (take b.index b.bytes)
  let rest : Buffer = record { bytes = front ++ drop b.index b.bytes; index = b.index - size }
  if ltb b.index size then panic else put_varint size rest

-- From `i := len(dAtA)` to `return len(dAtA) - i, nil`; the bytes written stay in `dAtA`.
unfoldable pub fill : Action → List ℕ → Result (List ℕ × ℕ)
fill action buffer = do
  b ← action (record { bytes = buffer; index = length buffer })
  ok (b.bytes, length buffer - b.index)

-- `Marshal`: a fresh buffer of the computed size, and what was written of it.
unfoldable pub marshal_fresh : ℕ → (List ℕ → Result (List ℕ × ℕ)) → Result (List ℕ)
marshal_fresh size marshal = do (bytes, n) ← marshal (replicate size 0); ok (take n bytes)

-- `MarshalTo`: the front of the given buffer, which must have room.
unfoldable pub marshal_front : ℕ → (List ℕ → Result (List ℕ × ℕ)) → List ℕ → Result (List ℕ × ℕ)
marshal_front size marshal buffer =
    if ltb (length buffer) size
    then panic
    else do (bytes, n) ← marshal (take size buffer); ok (bytes ++ drop size buffer, n)
