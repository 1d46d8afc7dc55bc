-- ===== src/Registration/V1/SpecCodec/Numbers.antt =====
-- What `Unmarshal` of an `APIServiceSpec` makes of a varint in a field that is an int32.
use cloud_native_tour.Common.{
  ℕ, ℤ, ◌%◌, ◌^◌, ◌<◌, ◌≡◌, refl, ◌∷◌, ◌++◌, length, length-append, arith,
}
use cloud_native_tour.Wire.Result.{ok}
use cloud_native_tour.Wire.Varint.Groups.{varint, length-varint}
use cloud_native_tour.Wire.Varint.Int32.{int32_of}
use cloud_native_tour.Wire.Varint.Int32.Laws.{IsLowOf, int32_of-IsLowOf}
use cloud_native_tour.Wire.Unmarshal.Reads.{Reads, Reads-append, unmarshal_with-Reads}
use cloud_native_tour.Wire.Field.Number.Laws.{Reads-int32}
use cloud_native_tour.Registration.V1.SpecCodec.{Spec, switch, unmarshal}

Reads-minimum :
    (n : ℕ) (m : Spec)
    → n < 2 ^ 64
    → Reads switch m (0x38 ∷ varint n) (record m { group_priority_minimum = int32_of (n % 2 ^ 32) })
unfolding switch
Reads-minimum n m h =
    Reads-int32 0x38 n (λ v. record m { group_priority_minimum = v }) (omega arith) (omega arith)
      (omega arith) h (λ input pre j. refl)

Reads-priority :
    (n : ℕ) (m : Spec)
    → n < 2 ^ 64
    → Reads switch m (0x40 ∷ varint n) (record m { version_priority = int32_of (n % 2 ^ 32) })
unfolding switch
Reads-priority n m h =
    Reads-int32 0x40 n (λ v. record m { version_priority = v }) (omega arith) (omega arith)
      (omega arith) h (λ input pre j. refl)

-- Decoding an APIServiceSpec from the fields 7 and 8 with the varints of any two numbers below 2 ^ 64,
-- such as no int32 holds among them, succeeds on any receiver: the group priority minimum becomes the
-- int32 that has the low 32 bits of the first number, the version priority that of the second, and
-- nothing else changes.
pub unmarshal-varint :
    (n p : ℕ) (m : Spec)
    → n < 2 ^ 64
    → p < 2 ^ 64
    → (minimum : ℤ) × (priority : ℤ) × IsLowOf n minimum
      × IsLowOf p priority
      × (unmarshal ((0x38 ∷ varint n) ++ (0x40 ∷ varint p)) m
          ≡ ok (record m { group_priority_minimum = minimum; version_priority = priority }))
unfolding unmarshal
unmarshal-varint n p m h k =
    let lengths = length-append (0x38 ∷ varint n) (0x40 ∷ varint p) in
    let minimum = int32_of (n % 2 ^ 32) in
    let fits : length ((0x38 ∷ varint n) ++ (0x40 ∷ varint p)) < 2 ^ 63 =
      omega (arith, lengths, (length-varint n).1, (length-varint p).1) in
    (
      minimum,
      int32_of (p % 2 ^ 32),
      int32_of-IsLowOf n,
      int32_of-IsLowOf p,
      unmarshal_with-Reads fits (
          Reads-append (Reads-minimum n m h)
            (Reads-priority p (record m { group_priority_minimum = minimum }) k)),
    )
