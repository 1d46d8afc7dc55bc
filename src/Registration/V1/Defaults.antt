-- ===== src/Registration/V1/Defaults.antt =====
-- kube-aggregator/pkg/apis/registration/v1/defaults.go and zz_generated.defaults.go. Each function gives
-- back what its argument points to afterwards; `to` is ptr.To of k8s.io/utils. The items of a list are
-- taken to share no service reference.
pub mod Laws
use cloud_native_tour.Common.{ℤ, pos, List, [], ◌∷◌, none, some}
use cloud_native_tour.Memory.{Cell, Pointer, Slice, Alloc, pure, ◌>>=◌, copy_list}
use cloud_native_tour.Registration.V1.Types.{ServiceReference, ApiService, ApiServiceList}

module _ (to : ℤ → Alloc (Pointer ℤ)) where
  unfoldable pub set_defaults_service_reference : ServiceReference → Alloc ServiceReference
  set_defaults_service_reference obj = elim obj.port [
    | none ↦ do p ← to (pos 443); pure (record obj { port = p })
    | some c ↦ pure obj
  ]

  -- What a pointer refers to is changed where it stands.
  unfoldable pub in_place : {A : Type 0} → (A → Alloc A) → Pointer A → Alloc (Pointer A)
  in_place change none = pure none
  in_place change (some c) = do
    x ← change c.content
    pure (some (record { address = c.address; content = x }))

  module _ {T O M : Type 0} where
    unfoldable pub set_object_defaults_api_service : ApiService T O M → Alloc (ApiService T O M)
    set_object_defaults_api_service x = do
      s ← in_place set_defaults_service_reference x.spec.service
      pure (record x { spec = record x.spec { service = s } })

    unfoldable pub set_object_defaults_list :
        {L : Type 0} → ApiServiceList T O L M → Alloc (ApiServiceList T O L M)
    set_object_defaults_list x = do
      xs ← in_place (copy_list set_object_defaults_api_service) x.items
      pure (record x { items = xs })
