-- ===== src/Wire/Message/Codec.antt =====
-- A generated codec: its parts give the laws, and the laws give what `Marshal`, `MarshalTo` and
-- `Unmarshal` do together.
use cloud_native_tour.Common.{ℕ, ◌^◌, ◌<◌, ◌≡◌, sym, ◌∙◌, List, ◌++◌, length, arith}
use cloud_native_tour.Wire.Result.{ok, ◌>>=◌}
use cloud_native_tour.Wire.Unmarshal.{Switch, unmarshal_with}
use cloud_native_tour.Wire.Unmarshal.Total.{IsTotal, unmarshal_with-ne-stuck}
use cloud_native_tour.Wire.Unmarshal.Reads.{unmarshal_with-Reads}
use cloud_native_tour.Wire.Buffer.{Action, fill, marshal_fresh, marshal_front}
use cloud_native_tour.Wire.Buffer.Writes.{
  fill-Writes, marshal_fresh-FillsEnd, marshal_front-FillsEnd,
}
use cloud_native_tour.Wire.Message.{Message, MessageLaws}
use native.Mathlib.Nat.{zero-add}
use cloud_native_tour.Wire.Field.Pieces.{Piece, Decodes}

-- The operations of a codec with these statements.
abbrev pub generated : {M : Type 0} → M → (ℕ → M → ℕ) → (M → Action) → Switch M → Message M
generated empty grow put switch = record {
  empty = empty;
  size = grow 0;
  marshal_to_sized_buffer = λ m buffer. fill (put m) buffer;
  unmarshal = unmarshal_with switch;
}

pub generated-laws :
    {M : Type 0} {empty : M} {grow : ℕ → M → ℕ} {put : M → Action} {switch : Switch M}
    {encoding : M → List ℕ} {Canonical : M → Type 0}
    → ((m : M) → Piece (λ n. grow n m) (put m) (encoding m))
    → IsTotal switch
    → ((m : M) → Canonical m → Decodes switch empty (encoding m) m)
    → MessageLaws (generated empty grow put switch) encoding Canonical
generated-laws {empty} {switch} {encoding} pieces total decodes = record {
  size_exact = λ m h. (pieces m).grows 0 (omega arith) ∙ zero-add (length (encoding m));
  marshal_fills = λ m h. fill-Writes ((pieces m).puts h);
  unmarshal_encoding = λ m c h. unmarshal_with-Reads h ((decodes m c).decodes h);
  unmarshal_ends = λ input m h. unmarshal_with-ne-stuck switch total input m h;
}

module _ {M : Type 0} {c : Message M} {encoding : M → List ℕ} {Canonical : M → Type 0}
    (laws : MessageLaws c encoding Canonical) (m : M) (fits : length (encoding m) < 2 ^ 63) where
  pub marshal_fresh-laws : marshal_fresh (c.size m) (c.marshal_to_sized_buffer m) ≡ ok (encoding m)
  marshal_fresh-laws =
      marshal_fresh-FillsEnd (c.size m) (laws.marshal_fills m fits) (laws.size_exact m fits)

  pub unmarshal-marshal_fresh :
      Canonical m
      → (marshal_fresh (c.size m) (c.marshal_to_sized_buffer m) >>= λ bytes.
          c.unmarshal bytes c.empty)
        ≡ ok m
  unmarshal-marshal_fresh canonical =
      rw marshal_fresh-laws (laws.unmarshal_encoding m canonical fits)

  pub marshal_front-laws :
      (junk back : List ℕ)
      → length junk ≡ length (encoding m)
      → marshal_front (c.size m) (c.marshal_to_sized_buffer m) (junk ++ back)
        ≡ ok (encoding m ++ back, length (encoding m))
  marshal_front-laws junk back l =
      let e = laws.size_exact m fits in
      marshal_front-FillsEnd (c.size m) junk back (laws.marshal_fills m fits) e (l ∙ sym e)
