-- ===== src/Wire/Field.antt =====
-- The statements that every generated codec repeats for a field: its size, its bytes written from the
-- back, and its bytes read.
pub mod Laws
pub mod Decode
pub mod Number
pub mod Advances
pub mod Pieces
pub mod Keeps
use cloud_native_tour.Common.{ℕ, ◌+◌, List, length}
use cloud_native_tour.Wire.Result.{Result, ok, ◌>>=◌}
use cloud_native_tour.Wire.Varint.{sov_generated}
use cloud_native_tour.Wire.Slice.{slice}
use cloud_native_tour.Wire.Skip.{add64}
use cloud_native_tour.Wire.Unmarshal.{read_delimited, skip_field}
use cloud_native_tour.Wire.Buffer.{Action, ◌then◌, put_bytes, put_varint, put_byte, put_message}

-- `n += 1 + l + sovGenerated(uint64(l))`
unfoldable pub size_field : ℕ → ℕ → ℕ
size_field n l = add64 n (add64 (add64 1 l) (sov_generated l))

-- `i -= len(s); copy(…); i = encodeVarintGenerated(…); i--; dAtA[i] = tag`
unfoldable pub put_text_field : ℕ → List ℕ → Action
put_text_field tag s = put_bytes s then put_varint (length s) then put_byte tag

-- The same for a message inside the message.
unfoldable pub put_message_field : ℕ → (List ℕ → Result (List ℕ × ℕ)) → Action
put_message_field tag marshal = put_message marshal then put_byte tag

-- `m.X = string(dAtA[iNdEx:postIndex]); iNdEx = postIndex`
unfoldable pub text_case : {M : Type 0} → (List ℕ → M) → List ℕ → ℕ → ℕ → ℕ → Result (M × ℕ)
text_case update input field_num wire_type j = do
  (lo, hi) ← read_delimited input field_num wire_type j
  ok (update (slice input lo hi), hi)

-- `if err := m.X.Unmarshal(dAtA[iNdEx:postIndex]); err != nil { return err }; iNdEx = postIndex`
unfoldable pub message_case :
    {M N : Type 0} → (List ℕ → Result N) → (N → M) → List ℕ → ℕ → ℕ → ℕ → Result (M × ℕ)
message_case unmarshal update input field_num wire_type j = do
  (lo, hi) ← read_delimited input field_num wire_type j
  n ← unmarshal (slice input lo hi)
  ok (update n, hi)

-- `default`
unfoldable pub default_case : {M : Type 0} → List ℕ → ℕ → M → Result (M × ℕ)
default_case input pre m = do k ← skip_field input pre; ok (m, k)
