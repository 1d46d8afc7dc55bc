-- ===== src/Registration/V1/Defaults/Laws.antt =====
-- Defaulting gives every service reference a port, once; a conversion then loses nothing of it.
use cloud_native_tour.Common.{
  ℕ, suc, ℤ, pos, ◌≡◌, refl, ap, ◌∙◌, List, [], ◌∷◌, none, some, Option-cases, inl, inr,
}
use cloud_native_tour.Memory.{Cell, Pointer, Alloc, copy_list}
use cloud_native_tour.Memory.Copy.{pointer_memory}
use cloud_native_tour.Registration.Hub as Hub
use cloud_native_tour.Registration.V1.Types.{ServiceReference, ApiService, ApiServiceList}
use cloud_native_tour.Registration.V1.Memory.{reference_memory}
use cloud_native_tour.Registration.V1.Conversion.{
  PortConversion, convert_v1_api_service_to_registration, convert_registration_api_service_to_v1,
}
use cloud_native_tour.Registration.V1.Conversion.Laws.{
  ported_service, came_back, convert_registration-convert_v1,
}
use cloud_native_tour.Registration.V1.Defaults.{
  set_defaults_service_reference, in_place, set_object_defaults_api_service,
  set_object_defaults_list,
}

-- A list whose elements are as a change leaves them is left as it is.
copy_list_again :
    {A : Type 0} (change : A → Alloc A)
    → ((x : A) (n m : ℕ) → change (change x n).0 m ≡ ((change x n).0, m))
    → (xs : List A) (n m : ℕ)
    → copy_list change (copy_list change xs n).0 m ≡ ((copy_list change xs n).0, m)
unfolding copy_list
copy_list_again change h [] n m = refl
copy_list_again change h (x ∷ xs) n m =
    let k = (change x n).1 in
    let y = (change x n).0 in
    ap
      (λ r. (
        r.0 ∷ (copy_list change (copy_list change xs k).0 r.1).0,
        (copy_list change (copy_list change xs k).0 r.1).1,
      ))
      (h x n m)
    ∙ ap (λ r. (y ∷ r.0, r.1)) (copy_list_again change h xs k m)

module _ (to : ℤ → Alloc (Pointer ℤ))
    (to_new : (v : ℤ) (n : ℕ) → to v n ≡ (some (record { address = n; content = v }), suc n)) where
  set_nil :
      (x : ServiceReference) (n : ℕ)
      → x.port ≡ none
      → set_defaults_service_reference to x n
        ≡ (record x { port = some (record { address = n; content = pos 443 }) }, suc n)
  unfolding set_defaults_service_reference
  set_nil x n e = rw e (ap (λ r. (record x { port = r.0 }, r.1)) (to_new (pos 443) n))

  set_given :
      (x : ServiceReference) (n : ℕ) (c : Cell ℤ)
      → x.port ≡ some c
      → set_defaults_service_reference to x n ≡ (x, n)
  unfolding set_defaults_service_reference
  set_given x n c e = rw e refl

  set_reference_again :
      (x : ServiceReference) (n m : ℕ)
      → set_defaults_service_reference to (set_defaults_service_reference to x n).0 m
        ≡ ((set_defaults_service_reference to x n).0, m)
  set_reference_again x n m = elim (Option-cases x.port) [
    | inl e ↦ rw (set_nil x n e) (set_given _ m _ refl)
    | inr (c, e) ↦ rw (set_given x n c e) (set_given x m c e)
  ]

  in_place_again :
      {A : Type 0} (change : A → Alloc A)
      → ((x : A) (n m : ℕ) → change (change x n).0 m ≡ ((change x n).0, m))
      → (p : Pointer A) (n m : ℕ)
      → in_place to change (in_place to change p n).0 m ≡ ((in_place to change p n).0, m)
  unfolding in_place
  in_place_again change h none n m = refl
  in_place_again change h (some c) n m =
      ap (λ r. (some (record { address = c.address; content = r.0 }), r.1)) (h c.content n m)

  ported_defaults :
      (p : Pointer ServiceReference) (n : ℕ)
      → ported_service (in_place to (set_defaults_service_reference to) p n).0
        ≡ (in_place to (set_defaults_service_reference to) p n).0
  unfolding in_place
  ported_defaults none n = refl
  ported_defaults (some c) n = elim (Option-cases c.content.port) [
    | inl e ↦ rw (set_nil c.content n e)
    | inr (d, e) ↦ rw (set_given c.content n d e) (rw e refl)
  ]

  module _ {T O M : Type 0} where
    pub set_object_defaults_api_service_idempotent :
        (x : ApiService T O M) (n m : ℕ)
        → set_object_defaults_api_service to (set_object_defaults_api_service to x n).0 m
          ≡ ((set_object_defaults_api_service to x n).0, m)
    unfolding set_object_defaults_api_service
    set_object_defaults_api_service_idempotent x n m =
        ap (λ r. (record x { spec = record x.spec { service = r.0 } }, r.1))
          (in_place_again (set_defaults_service_reference to) set_reference_again x.spec.service n
            m)

    -- Where ptr.To gives a new pointer: defaulting a v1 APIServiceList a second time changes nothing
    -- and takes no memory.
    pub set_object_defaults_list_idempotent :
        {L : Type 0} (x : ApiServiceList T O L M) (n m : ℕ)
        → set_object_defaults_list to (set_object_defaults_list to x n).0 m
          ≡ ((set_object_defaults_list to x n).0, m)
    unfolding set_object_defaults_list
    set_object_defaults_list_idempotent x n m =
        ap (λ r. (record x { items = r.0 }, r.1))
          (in_place_again (copy_list (set_object_defaults_api_service to))
            (copy_list_again (set_object_defaults_api_service to)
              set_object_defaults_api_service_idempotent)
            x.items n m)

    -- Where ptr.To gives a new pointer, and the conversions of a port pointer are those of
    -- apimachinery: a v1 APIService that was defaulted, converted to the internal version and back, is
    -- itself, but for the TypeMeta, which is that of the object converted into, and with a service
    -- reference that reads, its port included, as the defaulted one.
    pub convert_v1-set_object_defaults :
        (ports : PortConversion) (x back : ApiService T O M) (out : Hub.ApiService T O M)
        (k n m : ℕ)
        → (s : Pointer ServiceReference) × ((convert_registration_api_service_to_v1 ports
              (convert_v1_api_service_to_registration ports
                (set_object_defaults_api_service to x k).0
                out
                n).0
              back
              m).0
            ≡ came_back ports (set_object_defaults_api_service to x k).0 back.type_meta s)
          × ((pointer_memory reference_memory).forget s
              ≡ (pointer_memory reference_memory).forget
                  (set_object_defaults_api_service to x k).0.spec.service)
    unfolding set_object_defaults_api_service
    convert_v1-set_object_defaults ports x back out k n m =
        let y = (set_object_defaults_api_service to x k).0 in
        let (s, e, same, fresh) = convert_registration-convert_v1 ports y back out n m in
        (
          s,
          e,
          same ∙ ap (pointer_memory reference_memory).forget (ported_defaults x.spec.service k),
        )
