-- ===== src/Registration/V1/StatusCodec/Stays.antt =====
-- Whatever bytes are read, the conditions of an `APIServiceStatus` are nil or filled, and canonical.
use cloud_native_tour.Common.{ℕ, List, Option}
use cloud_native_tour.Wire.Message.{Message, StaysCanonical}
use cloud_native_tour.Wire.Field.Keeps.{Keeps, Keeps-if, Keeps-default, unmarshal_with-Keeps}
use cloud_native_tour.Wire.Repeated.{elements}
use cloud_native_tour.Wire.Repeated.Laws.{Keeps-repeated, All-append_one, append_one-ne-nil}
use cloud_native_tour.Registration.V1.Types.{ApiServiceCondition}
use cloud_native_tour.Registration.V1.ConditionCodec.Laws as ConditionLaws
use cloud_native_tour.Registration.V1.ConditionCodec.Stays as ConditionStays
use cloud_native_tour.Registration.V1.StatusCodec.{Status, empty, switch, unmarshal, codec}
use cloud_native_tour.Registration.V1.StatusCodec.Laws.{IsCanonical}

module _ {M : Type 0} {time : Message M} {TimeCanonical : M → Type 0}
    (time_stays : StaysCanonical time TimeCanonical) where
  switch-Keeps :
      (input : List ℕ) (i f w j : ℕ) (m : Status M)
      → IsCanonical TimeCanonical m
      → Keeps (IsCanonical TimeCanonical) (switch time input i f w j m)
  unfolding switch
  switch-Keeps input i f w j m h =
      Keeps-if _
        (Keeps-repeated (ConditionStays.stays time_stays) m.conditions
          (λ (o : Option (List (ApiServiceCondition M))). record m { conditions = o }) input f w j
          λ e c. record {
            filled = append_one-ne-nil (elements m.conditions) e;
            canonical =
                All-append_one (ConditionLaws.IsCanonical TimeCanonical) (elements m.conditions) e
                  h.canonical c;
          })
        (Keeps-default m input i h)

  pub stays : StaysCanonical (codec time) (IsCanonical TimeCanonical)
  unfolding empty unmarshal
  stays = record {
    empty_canonical = record { filled = λ e. cc; canonical = tt };
    unmarshal_canonical = λ input m m' h e. unmarshal_with-Keeps switch-Keeps input m m' h e;
  }
