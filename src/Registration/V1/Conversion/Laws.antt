-- ===== src/Registration/V1/Conversion/Laws.antt =====
-- v1 and the internal version, there and back: everything is kept, but for TypeMeta and for a port that
-- is nil, which comes back as 0; only the service reference is new memory.
use cloud_native_tour.Common.{ℕ, suc, ℤ, pos, ◌≡◌, refl, sym, ap, ◌∙◌, none, some, arith}
use mathlib.Core.Path.{subst}
use cloud_native_tour.Memory.{Cell, Pointer, Alloc, copy_pointer}
use cloud_native_tour.Memory.Copy.{plain_memory, pointer_memory, IsFresh}
use cloud_native_tour.Memory.Lists.{cast_slice-inverse}
use cloud_native_tour.Registration.Hub as Hub
use cloud_native_tour.Registration.V1.Types.{ServiceReference, ApiServiceCondition, ApiService}
use cloud_native_tour.Registration.V1.Memory.{reference_memory}
use cloud_native_tour.Registration.V1.Conversion.{
  PortConversion, cast_condition_to_registration, cast_condition_to_v1,
  convert_v1_status_to_registration, convert_registration_status_to_v1,
  convert_v1_service_reference_to_registration, convert_registration_service_reference_to_v1,
  zero_registration_service_reference, zero_v1_service_reference, convert_v1_spec_to_registration,
  convert_registration_spec_to_v1, convert_v1_api_service_to_registration,
  convert_registration_api_service_to_v1,
}

-- A port that is nil stands for 0.
abbrev pub ported_port : Pointer ℤ → Pointer ℤ
ported_port none = some (record { address = 0; content = pos 0 })
ported_port (some c) = some c

abbrev pub ported : ServiceReference → ServiceReference
ported x = record x { port = ported_port x.port }

abbrev pub ported_service : Pointer ServiceReference → Pointer ServiceReference
ported_service none = none
ported_service (some c) = some (record { address = c.address; content = ported c.content })

module _ (ports : PortConversion) where
  abbrev service_there : Pointer ServiceReference → Alloc (Pointer Hub.ServiceReference)
  service_there = copy_pointer (λ r.
      convert_v1_service_reference_to_registration ports r
        (zero_registration_service_reference ports))

  abbrev service_back : Pointer Hub.ServiceReference → Alloc (Pointer ServiceReference)
  service_back =
      copy_pointer (λ r.
        convert_registration_service_reference_to_v1 ports r (zero_v1_service_reference ports))

  port_back-there :
      (p : Pointer ℤ) (m : ℕ)
      → (pointer_memory plain_memory).forget (ports.to_pointer (ports.from_pointer p) m).0
        ≡ (pointer_memory plain_memory).forget (ported_port p)
  port_back-there none m = rw (ports.from_pointer_nil, ports.to_pointer_new)
  port_back-there (some c) m = rw (ports.from_pointer_some, ports.to_pointer_new)

  service_back-there :
      (p : Pointer ServiceReference) (n m : ℕ)
      → (pointer_memory reference_memory).forget (service_back (service_there p n).0 m).0
        ≡ (pointer_memory reference_memory).forget (ported_service p)
  unfolding copy_pointer convert_v1_service_reference_to_registration
      convert_registration_service_reference_to_v1
  service_back-there none n m = refl
  service_back-there (some c) n m =
      ap (λ p. some (record { address = 0; content = record c.content { port = p } }))
        (port_back-there c.content.port (suc m))

  -- The new reference stands at `m`, its port behind it.
  abbrev made : Hub.ServiceReference → ℕ → Pointer ServiceReference
  made r m = some (record {
    address = m;
    content = record {
      namespace = r.namespace;
      name = r.name;
      port = some (record { address = suc m; content = r.port });
    };
  })

  service_back-made :
      (c : Cell Hub.ServiceReference) (m : ℕ)
      → service_back (some c) m ≡ (made c.content m, suc (suc m))
  unfolding copy_pointer convert_registration_service_reference_to_v1
  service_back-made c m = rw (ports.to_pointer_new)

  service_back-IsFresh :
      (p : Pointer Hub.ServiceReference) (m : ℕ)
      → IsFresh m
          (service_back p m).1
          ((pointer_memory reference_memory).addresses (service_back p m).0)
  unfolding copy_pointer
  service_back-IsFresh none m = (omega arith, tt)
  service_back-IsFresh (some c) m =
      subst
        (λ (r : Pointer ServiceReference × ℕ).
          IsFresh m r.1 ((pointer_memory reference_memory).addresses r.0))
        (sym (service_back-made c m))
        (omega arith, ((omega arith, omega arith), ((omega arith, omega arith), tt)))

  cast_condition-inverse :
      {M : Type 0} (c : ApiServiceCondition M)
      → cast_condition_to_v1 (cast_condition_to_registration c) ≡ c
  unfolding cast_condition_to_v1 cast_condition_to_registration
  cast_condition-inverse c = refl

  cast_condition_to_registration-inverse :
      {M : Type 0} (c : Hub.ApiServiceCondition M)
      → cast_condition_to_registration (cast_condition_to_v1 c) ≡ c
  unfolding cast_condition_to_v1 cast_condition_to_registration
  cast_condition_to_registration-inverse c = refl

  service_there-back :
      (p : Pointer Hub.ServiceReference) (n m : ℕ)
      → (pointer_memory plain_memory).forget (service_there (service_back p n).0 m).0
        ≡ (pointer_memory plain_memory).forget p
  unfolding copy_pointer convert_v1_service_reference_to_registration
  service_there-back none n m = refl
  service_there-back (some c) n m =
      ap
        (λ (r : Pointer ServiceReference × ℕ).
          (pointer_memory plain_memory).forget (service_there r.0 m).0)
        (service_back-made c n)
      ∙ ap (λ v. some (record { address = 0; content = record c.content { port = v } }))
          (ports.from_pointer_some (record { address = suc n; content = c.content.port }))

  service_there-IsFresh :
      (p : Pointer ServiceReference) (m : ℕ)
      → IsFresh m
          (service_there p m).1
          ((pointer_memory plain_memory).addresses (service_there p m).0)
  unfolding copy_pointer convert_v1_service_reference_to_registration
  service_there-IsFresh none m = (omega arith, tt)
  service_there-IsFresh (some c) m = (omega arith, ((omega arith, omega arith), tt))

  module _ {T O M : Type 0} where
    -- A v1 object that came back from the internal version: `s` is the new service reference.
    abbrev pub came_back : ApiService T O M → T → Pointer ServiceReference → ApiService T O M
    came_back source no_type_meta s = record source {
      type_meta = no_type_meta;
      spec = record source.spec { service = s };
    }

    -- Where the conversions of a port pointer are those of apimachinery: converting a v1 APIService to
    -- the internal version and back gives it again, but for the TypeMeta, which is that of the object
    -- converted into, and for the service reference, which is a new one that reads as the old, a port
    -- that was nil being a pointer to 0.
    pub convert_registration-convert_v1 :
        (source back : ApiService T O M) (out : Hub.ApiService T O M) (n m : ℕ)
        → (s : Pointer ServiceReference) × ((convert_registration_api_service_to_v1 ports
              (convert_v1_api_service_to_registration ports source out n).0
              back
              m).0
            ≡ came_back source back.type_meta s)
          × ((pointer_memory reference_memory).forget s
              ≡ (pointer_memory reference_memory).forget (ported_service source.spec.service))
          × IsFresh m
              (convert_registration_api_service_to_v1 ports
                (convert_v1_api_service_to_registration ports source out n).0
                back
                m).1
              ((pointer_memory reference_memory).addresses s)
    unfolding convert_v1_api_service_to_registration convert_registration_api_service_to_v1
        convert_v1_spec_to_registration convert_registration_spec_to_v1
        convert_v1_status_to_registration convert_registration_status_to_v1
    convert_registration-convert_v1 source back out n m =
        let h = (service_there source.spec.service n).0 in
        let s = (service_back h m).0 in
        (
          s,
          ap
              (λ c. record source {
                type_meta = back.type_meta;
                spec = record source.spec { service = s };
                status = record { conditions = c };
              })
              (cast_slice-inverse (cast_condition_to_registration {M = M})
                (cast_condition_to_v1 {M = M}) cast_condition-inverse source.status.conditions),
          service_back-there source.spec.service n m,
          service_back-IsFresh h m,
        )

    -- Where the conversions of a port pointer are those of apimachinery: converting an internal
    -- APIService to v1 and back gives it again, but for the TypeMeta, which is that of the object
    -- converted into, and for the service reference, which is a new one that reads as the old.
    pub convert_v1-convert_registration :
        (source back : Hub.ApiService T O M) (out : ApiService T O M) (n m : ℕ)
        → (s : Pointer Hub.ServiceReference) × ((convert_v1_api_service_to_registration ports
              (convert_registration_api_service_to_v1 ports source out n).0
              back
              m).0
            ≡ record source {
              type_meta = back.type_meta;
              spec = record source.spec { service = s };
            })
          × ((pointer_memory plain_memory).forget s
              ≡ (pointer_memory plain_memory).forget source.spec.service)
          × IsFresh m
              (convert_v1_api_service_to_registration ports
                (convert_registration_api_service_to_v1 ports source out n).0
                back
                m).1
              ((pointer_memory plain_memory).addresses s)
    unfolding convert_v1_api_service_to_registration convert_registration_api_service_to_v1
        convert_v1_spec_to_registration convert_registration_spec_to_v1
        convert_v1_status_to_registration convert_registration_status_to_v1
    convert_v1-convert_registration source back out n m =
        let h = (service_back source.spec.service n).0 in
        let s = (service_there h m).0 in
        (
          s,
          ap
              (λ c. record source {
                type_meta = back.type_meta;
                spec = record source.spec { service = s };
                status = record { conditions = c };
              })
              (cast_slice-inverse (cast_condition_to_v1 {M = M})
                (cast_condition_to_registration {M = M}) cast_condition_to_registration-inverse
                source.status.conditions),
          service_there-back source.spec.service n m,
          service_there-IsFresh h m,
        )
