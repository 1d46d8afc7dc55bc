-- ===== src/Wire/Repeated.antt =====
-- The statements of a generated codec for a field that is a slice of messages, and for one that is a
-- pointer.
pub mod Laws
use cloud_native_tour.Common.{ℕ, List, [], ◌∷◌, ◌++◌, Option, none, some}
use cloud_native_tour.Wire.Result.{Result, ok}
use cloud_native_tour.Wire.Buffer.{Action, ◌then◌}
use cloud_native_tour.Wire.Message.{Message}
use cloud_native_tour.Wire.Field.{size_field, put_message_field, message_case}

-- What `range m.Items` goes through: nothing in a nil slice.
abbrev pub elements {ℓ} : {A : Type ℓ} → Option (List A) → List A
elements none = []
elements (some xs) = xs

module _ {N : Type 0} (c : Message N) where
  -- `for _, e := range m.Items { l = e.Size(); n += 1 + l + sovGenerated(uint64(l)) }`
  unfoldable pub size_repeated : ℕ → List N → ℕ
  size_repeated n [] = n
  size_repeated n (e ∷ rest) = size_repeated (size_field n (c.size e)) rest

  -- The loop counts down, so the last item is written first.
  unfoldable pub put_repeated : ℕ → List N → Action
  put_repeated tag [] b = ok b
  put_repeated tag (e ∷ rest) b =
      (put_repeated tag rest then put_message_field tag (c.marshal_to_sized_buffer e)) b

  -- `m.Items = append(m.Items, X{})`, and `Unmarshal` into the new element
  unfoldable pub repeated_case :
      {M : Type 0} → Option (List N) → (Option (List N) → M) → List ℕ → ℕ → ℕ → ℕ → Result (M × ℕ)
  repeated_case old update input field_num wire_type j =
      message_case (λ xs. c.unmarshal xs c.empty) (λ e. update (some (elements old ++ (e ∷ []))))
        input field_num wire_type j

-- `if m.X != nil { … }`
unfoldable pub size_optional {ℓ} : {A : Type ℓ} → (ℕ → A → ℕ) → ℕ → Option A → ℕ
size_optional grow n none = n
size_optional grow n (some x) = grow n x

unfoldable pub put_optional {ℓ} : {A : Type ℓ} → (A → Action) → Option A → Action
put_optional put none b = ok b
put_optional put (some x) b = put x b
