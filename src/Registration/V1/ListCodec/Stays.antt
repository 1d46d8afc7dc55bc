-- ===== src/Registration/V1/ListCodec/Stays.antt =====
-- Whatever bytes are read, an `APIServiceList` stays canonical if the metadata and the times in it do.
use cloud_native_tour.Common.{ℕ, ◌≡◌, refl, List, [], ◌∷◌, ◌++◌, Option, some}
use cloud_native_tour.Wire.Result.{ok}
use cloud_native_tour.Wire.Message.{Message, StaysCanonical}
use cloud_native_tour.Wire.Field.Keeps.{
  Keeps, Keeps-if, Keeps-message, Keeps-default, unmarshal_with-Keeps,
}
use cloud_native_tour.Wire.Repeated.{elements}
use cloud_native_tour.Wire.Repeated.Laws.{Keeps-repeated, All-append_one, append_one-ne-nil}
use cloud_native_tour.Registration.V1.ServiceCodec.{Service}
use cloud_native_tour.Registration.V1.ServiceCodec.Laws as ServiceLaws
use cloud_native_tour.Registration.V1.ServiceCodec.Stays as ServiceStays
use cloud_native_tour.Registration.V1.ListCodec.{Services, empty, switch, unmarshal, codec}
use cloud_native_tour.Registration.V1.ListCodec.Laws.{IsCanonical}

module _ {T O L M : Type 0} (no_type_meta : T) {meta : Message O} {MetaCanonical : O → Type 0}
    (meta_stays : StaysCanonical meta MetaCanonical) {list_meta : Message L}
    {ListCanonical : L → Type 0} (list_stays : StaysCanonical list_meta ListCanonical)
    {time : Message M} {TimeCanonical : M → Type 0}
    (time_stays : StaysCanonical time TimeCanonical) where
  list_meta_case :
      (m : Services T O L M) (xs : List ℕ) (o : L)
      → IsCanonical no_type_meta MetaCanonical ListCanonical TimeCanonical m
      → list_meta.unmarshal xs m.list_meta ≡ ok o
      → IsCanonical no_type_meta MetaCanonical ListCanonical TimeCanonical
          (record m { list_meta = o })
  list_meta_case m xs o h r = record {
    untyped = h.untyped;
    list_canonical = list_stays.unmarshal_canonical xs m.list_meta o h.list_canonical r;
    filled = h.filled;
    canonical = h.canonical;
  }

  item_case :
      (m : Services T O L M) (e : Service T O M)
      → IsCanonical no_type_meta MetaCanonical ListCanonical TimeCanonical m
      → ServiceLaws.IsCanonical no_type_meta MetaCanonical TimeCanonical e
      → IsCanonical no_type_meta MetaCanonical ListCanonical TimeCanonical
          (record m { items = some (elements m.items ++ (e ∷ [])) })
  item_case m e h c = record {
    untyped = h.untyped;
    list_canonical = h.list_canonical;
    filled = append_one-ne-nil (elements m.items) e;
    canonical =
        All-append_one (ServiceLaws.IsCanonical no_type_meta MetaCanonical TimeCanonical)
          (elements m.items) e h.canonical c;
  }

  switch-Keeps :
      (input : List ℕ) (i f w j : ℕ) (m : Services T O L M)
      → IsCanonical no_type_meta MetaCanonical ListCanonical TimeCanonical m
      → Keeps
          (IsCanonical no_type_meta MetaCanonical ListCanonical TimeCanonical)
          (switch no_type_meta meta list_meta time input i f w j m)
  unfolding switch
  switch-Keeps input i f w j m h =
      Keeps-if _
        (Keeps-message (λ xs. list_meta.unmarshal xs m.list_meta) (λ o. record m { list_meta = o })
          input f w j (λ xs o r. list_meta_case m xs o h r))
        (Keeps-if _
          (Keeps-repeated (ServiceStays.stays no_type_meta meta_stays time_stays) m.items
            (λ (o : Option (List (Service T O M))). record m { items = o }) input f w j
            (λ e c. item_case m e h c))
          (Keeps-default m input i h))

  pub stays :
      StaysCanonical
        (codec no_type_meta meta list_meta time)
        (IsCanonical no_type_meta MetaCanonical ListCanonical TimeCanonical)
  unfolding empty unmarshal
  stays = record {
    empty_canonical = record {
      untyped = refl;
      list_canonical = list_stays.empty_canonical;
      filled = λ e. cc;
      canonical = tt;
    };
    unmarshal_canonical = λ input m m' h e. unmarshal_with-Keeps switch-Keeps input m m' h e;
  }
