-- ===== src/Wire/Message.antt =====
-- What one generated codec asks of the codec of a message inside it: its operations, and the laws that
-- tie them to an encoding. `metav1.ObjectMeta` and `metav1.ListMeta`, which k8s.io/apimachinery
-- implements, enter as such a codec; the repository's own messages fill it by their theorems.
pub mod Codec
use cloud_native_tour.Common.{ℕ, ◌^◌, ◌<◌, ◌≡◌, ◌≢◌, List, length}
use cloud_native_tour.Wire.Result.{Result, ok, stuck}
use cloud_native_tour.Wire.Buffer.Writes.{FillsEnd}

pub record Message (M : Type 0) : Type 0 where
  -- the zero value, which `Reset` restores
  pub empty : M
  -- Size
  pub size : M → ℕ
  -- MarshalToSizedBuffer: the buffer afterwards and the number of bytes written at its end
  pub marshal_to_sized_buffer : M → List ℕ → Result (List ℕ × ℕ)
  -- Unmarshal: the receiver afterwards
  pub unmarshal : List ℕ → M → Result M

-- The laws hold of values whose encoding fits a slice. Only a canonical value is read back as it was:
-- what the format does not carry must be at its zero value.
pub record MessageLaws {M : Type 0} (c : Message M) (encoding : M → List ℕ)
    (IsCanonical : M → Type 0) : Type 0 where
  pub size_exact : (m : M) → length (encoding m) < 2 ^ 63 → c.size m ≡ length (encoding m)
  pub marshal_fills :
      (m : M) → length (encoding m) < 2 ^ 63 → FillsEnd (c.marshal_to_sized_buffer m) (encoding m)
  pub unmarshal_encoding :
      (m : M)
      → IsCanonical m
      → length (encoding m) < 2 ^ 63
      → c.unmarshal (encoding m) c.empty ≡ ok m
  pub unmarshal_ends :
      (input : List ℕ) (m : M) → length input < 2 ^ 63 → c.unmarshal input m ≢ stuck

-- A canonical value stays so, whatever is read into it.
pub record StaysCanonical {M : Type 0} (c : Message M) (IsCanonical : M → Type 0) : Type 0 where
  pub empty_canonical : IsCanonical c.empty
  pub unmarshal_canonical :
      (input : List ℕ) (m m' : M) → IsCanonical m → c.unmarshal input m ≡ ok m' → IsCanonical m'
