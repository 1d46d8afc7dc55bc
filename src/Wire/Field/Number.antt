-- ===== src/Wire/Field/Number.antt =====
-- The statements of a generated codec for a field that is a number or a bool: wire type 0.
pub mod Laws
use cloud_native_tour.Common.{ℕ, ℤ, Bool, true, false, List, not, ◌==◌, if◌then◌else◌}
use cloud_native_tour.Wire.Result.{Result, ok, err, wrong_wire_type, ◌>>=◌}
use cloud_native_tour.Wire.Skip.{add64}
use cloud_native_tour.Wire.Varint.{sov_generated, read_varint}
use cloud_native_tour.Wire.Varint.Int32.{u64_of, read_int32}
use cloud_native_tour.Wire.Buffer.{Action, ◌then◌, put_varint, put_byte}

-- `n += 1 + sovGenerated(uint64(v))`
unfoldable pub size_number : ℕ → ℤ → ℕ
size_number n v = add64 n (add64 1 (sov_generated (u64_of v)))

-- `i = encodeVarintGenerated(dAtA, i, uint64(v)); i--; dAtA[i] = tag`
unfoldable pub put_number : ℕ → ℤ → Action
put_number tag v = put_varint (u64_of v) then put_byte tag

-- `n += 2`
unfoldable pub size_bool : ℕ → ℕ
size_bool n = add64 n 2

-- `i--; if v { dAtA[i] = 1 } else { dAtA[i] = 0 }; i--; dAtA[i] = tag`
unfoldable pub put_bool : ℕ → Bool → Action
put_bool tag v = put_byte (if v then 1 else 0) then put_byte tag

-- `if wireType != 0 { return … }`, the loop over an int32 and the assignment
unfoldable pub int32_case : {M : Type 0} → (ℤ → M) → List ℕ → ℕ → ℕ → ℕ → Result (M × ℕ)
int32_case update input field_num wire_type j = elim (wire_type == 0) [
  | true ↦ read_int32 input j >>= λ (v, k). ok (update v, k)
  | false ↦ err (wrong_wire_type field_num wire_type)
]

-- The same over an int, and `m.X = bool(v != 0)`.
unfoldable pub bool_case : {M : Type 0} → (Bool → M) → List ℕ → ℕ → ℕ → ℕ → Result (M × ℕ)
bool_case update input field_num wire_type j = elim (wire_type == 0) [
  | true ↦ read_varint input j >>= λ (v, k). ok (update (not (v == 0)), k)
  | false ↦ err (wrong_wire_type field_num wire_type)
]
