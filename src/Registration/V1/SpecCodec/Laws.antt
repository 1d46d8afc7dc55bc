-- ===== src/Registration/V1/SpecCodec/Laws.antt =====
-- The codec of `APIServiceSpec` against the encoding of its fields.
use cloud_native_tour.Common.{ℕ, refl, List, ◌++◌, some, arith}
use cloud_native_tour.Wire.Unmarshal.Segment.{field}
use cloud_native_tour.Wire.Unmarshal.Total.{IsTotal}
use cloud_native_tour.Wire.Message.{MessageLaws}
use cloud_native_tour.Wire.Message.Codec.{generated-laws}
use cloud_native_tour.Wire.Field.Number.Laws.{number, bool_bytes, Reads-number, Reads-bool}
use cloud_native_tour.Wire.Field.Advances.{IsTotal-Advances, advances}
use cloud_native_tour.Wire.Field.Pieces.{
  Piece, Piece-then, Piece-text, Piece-message, Piece-number, Piece-bool, Decodes, Decodes-Reads,
  Decodes-append, Decodes-text, Decodes-message,
}
use cloud_native_tour.Wire.Field.{put_text_field}
use cloud_native_tour.Wire.Repeated.Laws.{
  optional, EachOf, EachOf-any, Piece-optional, Decodes-optional,
}
use cloud_native_tour.Wire.Varint.Int32.Laws.{IsInt32}
use cloud_native_tour.Registration.V1.ReferenceCodec.{Reference}
use cloud_native_tour.Registration.V1.ReferenceCodec.Laws as ReferenceLaws
use cloud_native_tour.Registration.V1.SpecCodec.{
  Spec, size_service, size_bundle, put_service, empty, grow, put, size, marshal_to_sized_buffer,
  switch, unmarshal, codec,
}

abbrev service_field : Reference → List ℕ
service_field s = field 0xa (ReferenceLaws.encoding s)

-- The service and the CA bundle are fields if they are not nil.
abbrev pub encoding : Spec → List ℕ
encoding m =
    optional service_field m.service
    ++ (field 0x12 m.group
        ++ (field 0x1a m.version
            ++ (bool_bytes 0x20 m.insecure_skip_tls_verify
                ++ (optional (field 0x2a) m.ca_bundle
                    ++ (number 0x38 m.group_priority_minimum ++ number 0x40 m.version_priority)))))

-- Its numbers, and the service's port, are such as an int32 holds.
pub record IsCanonical (m : Spec) : Type 0 where
  pub port_range : EachOf ReferenceLaws.IsCanonical m.service
  pub minimum_range : IsInt32 m.group_priority_minimum
  pub priority_range : IsInt32 m.version_priority

grow-Piece : (m : Spec) → Piece (λ n. grow n m) (put m) (encoding m)
unfolding grow put
grow-Piece m =
    Piece-then
      (Piece-optional size_service put_service service_field (Piece-message ReferenceLaws.laws 0xa)
        m.service)
      (Piece-then (Piece-text 0x12 m.group) (
        Piece-then (Piece-text 0x1a m.version) (
          Piece-then (Piece-bool 0x20 m.insecure_skip_tls_verify) (
            Piece-then
              (Piece-optional size_bundle (put_text_field 0x2a) (field 0x2a) (Piece-text 0x2a)
                m.ca_bundle)
              (Piece-then (Piece-number 0x38 m.group_priority_minimum)
                (Piece-number 0x40 m.version_priority))))))

switch-IsTotal : IsTotal switch
unfolding switch
switch-IsTotal =
    IsTotal-Advances
      λ input i f w j m h. search (advances, ReferenceLaws.laws.unmarshal_ends) depth 12

switch-Decodes : (m : Spec) → IsCanonical m → Decodes switch empty (encoding m) m
unfolding switch empty
switch-Decodes m c =
    let one : Spec = record empty { service = m.service } in
    let two : Spec = record one { group = m.group } in
    let three : Spec = record two { version = m.version } in
    let four : Spec = record three { insecure_skip_tls_verify = m.insecure_skip_tls_verify } in
    let five : Spec = record four { ca_bundle = m.ca_bundle } in
    let six : Spec = record five { group_priority_minimum = m.group_priority_minimum } in
    Decodes-append
      (Decodes-optional (λ o. record empty { service = o }) service_field ReferenceLaws.IsCanonical
        (λ s r.
          Decodes-message ReferenceLaws.laws 0xa s (λ x. record empty { service = some x })
            (omega arith) (omega arith) (omega arith) r (λ input pre j. refl))
        m.service c.port_range)
      (Decodes-append
        (Decodes-text 0x12 m.group (λ s. record one { group = s }) (omega arith) (omega arith)
          (omega arith) (λ input pre j. refl))
        (Decodes-append
          (Decodes-text 0x1a m.version (λ s. record two { version = s }) (omega arith) (omega arith)
            (omega arith) (λ input pre j. refl))
          (Decodes-append
            (Decodes-Reads (
              Reads-bool 0x20 m.insecure_skip_tls_verify
                (λ b. record three { insecure_skip_tls_verify = b }) (omega arith) (omega arith)
                (omega arith) (λ input pre j. refl)))
            (Decodes-append
              (Decodes-optional (λ o. record four { ca_bundle = o }) (field 0x2a) (λ s. Unit)
                (λ s r.
                  Decodes-text 0x2a s (λ x. record four { ca_bundle = some x }) (omega arith)
                    (omega arith) (omega arith) (λ input pre j. refl))
                m.ca_bundle (EachOf-any m.ca_bundle))
              (Decodes-append
                (Decodes-Reads (
                  Reads-number 0x38 m.group_priority_minimum
                    (λ v. record five { group_priority_minimum = v }) (omega arith) (omega arith)
                    (omega arith) c.minimum_range (λ input pre j. refl)))
                (Decodes-Reads (
                  Reads-number 0x40 m.version_priority (λ v. record six { version_priority = v })
                    (omega arith) (omega arith) (omega arith) c.priority_range
                    (λ input pre j. refl))))))))

pub laws : MessageLaws codec encoding IsCanonical
unfolding size marshal_to_sized_buffer unmarshal
laws = generated-laws grow-Piece switch-IsTotal switch-Decodes
