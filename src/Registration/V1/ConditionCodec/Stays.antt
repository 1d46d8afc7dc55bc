-- ===== src/Registration/V1/ConditionCodec/Stays.antt =====
-- Whatever bytes are read, an `APIServiceCondition` stays canonical if its time does.
use cloud_native_tour.Common.{ℕ, List}
use cloud_native_tour.Wire.Message.{Message, StaysCanonical}
use cloud_native_tour.Wire.Field.Keeps.{keeps_cases, Keeps, unmarshal_with-Keeps}
use cloud_native_tour.Registration.V1.Types.{ApiServiceCondition}
use cloud_native_tour.Registration.V1.ConditionCodec.{empty, switch, unmarshal, codec}
use cloud_native_tour.Registration.V1.ConditionCodec.Laws.{IsCanonical}

module _ {M : Type 0} {time : Message M} {TimeCanonical : M → Type 0}
    (time_stays : StaysCanonical time TimeCanonical) where
  switch-Keeps :
      (input : List ℕ) (i f w j : ℕ) (m : ApiServiceCondition M)
      → IsCanonical TimeCanonical m
      → Keeps (IsCanonical TimeCanonical) (switch time input i f w j m)
  unfolding switch
  switch-Keeps input i f w j m h =
      let read =
        λ (xs : List ℕ) (t : M). time_stays.unmarshal_canonical xs m.last_transition_time t h in
      search (keeps_cases, read) depth 12

  pub stays : StaysCanonical (codec time) (IsCanonical TimeCanonical)
  unfolding empty unmarshal
  stays = record {
    empty_canonical = time_stays.empty_canonical;
    unmarshal_canonical = λ input m m' h e. unmarshal_with-Keeps switch-Keeps input m m' h e;
  }
