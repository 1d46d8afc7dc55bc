-- ===== src/Registration/V1/ListCodec/RoundTrip.antt =====
-- `Marshal` and `Unmarshal` of an `APIServiceList` together, over codecs of ObjectMeta, ListMeta and Time
-- that keep the laws.
use cloud_native_tour.Common.{ℕ, ◌^◌, ◌<◌, ◌≡◌, ◌≢◌, List, ◌++◌, length}
use cloud_native_tour.Wire.Result.{ok, stuck, ◌>>=◌}
use cloud_native_tour.Wire.Message.{Message, MessageLaws, StaysCanonical}
use cloud_native_tour.Wire.Message.Codec.{unmarshal-marshal_fresh, marshal_front-laws}
use cloud_native_tour.Registration.V1.ListCodec.{Services, empty, marshal, marshal_to, unmarshal}
use cloud_native_tour.Registration.V1.ListCodec.Laws.{encoding, IsCanonical, laws}
use cloud_native_tour.Registration.V1.ListCodec.Stays.{stays}

module _ {T O L M : Type 0} (no_type_meta : T) {meta : Message O} {meta_encoding : O → List ℕ}
    {MetaCanonical : O → Type 0} (meta_laws : MessageLaws meta meta_encoding MetaCanonical)
    {list_meta : Message L} {list_encoding : L → List ℕ} {ListCanonical : L → Type 0}
    (list_laws : MessageLaws list_meta list_encoding ListCanonical) {time : Message M}
    {time_encoding : M → List ℕ} {TimeCanonical : M → Type 0}
    (time_laws : MessageLaws time time_encoding TimeCanonical) where
  -- Where the codecs of ObjectMeta, ListMeta and Time keep the laws of `MessageLaws`: for a canonical
  -- v1 APIServiceList (its TypeMeta and those of its items are empty, its items and their conditions
  -- are nil or not empty, its ports and priorities are such as an int32 holds, and its metadata and
  -- times are canonical for their codecs) whose encoding is shorter than 2 ^ 63 bytes, `Marshal`
  -- succeeds, and `Unmarshal` of what it wrote into an empty list succeeds and gives the list back:
  -- nil pointers and false as such, negative numbers and empty CA bundles too.
  pub unmarshal-marshal_services :
      (m : Services T O L M)
      → IsCanonical no_type_meta MetaCanonical ListCanonical TimeCanonical m
      → length (encoding meta_encoding list_encoding time_encoding m) < 2 ^ 63
      → (marshal no_type_meta meta list_meta time m >>= λ bytes.
          unmarshal no_type_meta meta list_meta time bytes (empty no_type_meta meta list_meta time))
        ≡ ok m
  unfolding marshal
  unmarshal-marshal_services m c h =
      unmarshal-marshal_fresh (laws no_type_meta meta_laws list_laws time_laws) m h c

  -- Where the codecs of ObjectMeta, ListMeta and Time keep the laws of `MessageLaws`: `Unmarshal` of a
  -- v1 APIServiceList ends on every input shorter than 2 ^ 63 bytes, the messages inside it included:
  -- the fuel never runs out.
  pub unmarshal_services-ne-stuck :
      (input : List ℕ) (m : Services T O L M)
      → length input < 2 ^ 63
      → unmarshal no_type_meta meta list_meta time input m ≢ stuck
  unmarshal_services-ne-stuck input m h =
      (laws no_type_meta meta_laws list_laws time_laws).unmarshal_ends input m h

  -- `MarshalTo` writes the encoding at the front of the buffer and keeps the rest.
  pub marshal_to_services-encoding :
      (m : Services T O L M) (junk back : List ℕ)
      → length (encoding meta_encoding list_encoding time_encoding m) < 2 ^ 63
      → length junk ≡ length (encoding meta_encoding list_encoding time_encoding m)
      → marshal_to no_type_meta meta list_meta time m (junk ++ back)
        ≡ ok (
          encoding meta_encoding list_encoding time_encoding m ++ back,
          length (encoding meta_encoding list_encoding time_encoding m),
        )
  unfolding marshal_to
  marshal_to_services-encoding m junk back h l =
      marshal_front-laws (laws no_type_meta meta_laws list_laws time_laws) m h junk back l

  module _ (meta_stays : StaysCanonical meta MetaCanonical)
      (list_stays : StaysCanonical list_meta ListCanonical)
      (time_stays : StaysCanonical time TimeCanonical) where
    -- Where the codecs of ObjectMeta, ListMeta and Time keep the laws of `MessageLaws`, and what they
    -- read into a canonical value is canonical: if any bytes at all, with fields in whatever order,
    -- repeated, missing or unknown, are decoded into an empty v1 APIServiceList, and the encoding of
    -- the result is shorter than 2 ^ 63 bytes, then `Marshal` of it succeeds and what it wrote is
    -- decoded to the same list.
    pub marshal-unmarshal_services :
        (input : List ℕ) (m : Services T O L M)
        → unmarshal no_type_meta meta list_meta time input (empty no_type_meta meta list_meta time)
          ≡ ok m
        → length (encoding meta_encoding list_encoding time_encoding m) < 2 ^ 63
        → (marshal no_type_meta meta list_meta time m >>= λ bytes.
            unmarshal no_type_meta meta list_meta time bytes
              (empty no_type_meta meta list_meta time))
          ≡ ok m
    marshal-unmarshal_services input m e h =
        let s = stays no_type_meta meta_stays list_stays time_stays in
        unmarshal-marshal_services m
          (s.unmarshal_canonical input (empty no_type_meta meta list_meta time) m s.empty_canonical
            e)
          h
