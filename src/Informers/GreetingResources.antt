-- ===== src/Informers/GreetingResources.antt =====
-- crd-getting-started/pkg/client/informers/externalversions/greeting/v1/foo.go, of which that of v2 differs
-- in the version, and generic.go: as for kube-aggregator, in the namespace of the factory.
pub mod Laws
use cloud_native_tour.Common.{ℕ, ℤ, Text, codes, Option, none, ◌⊎◌}
use cloud_native_tour.Informers.Factory.{SharedInformerFactory, informer_for}
use cloud_native_tour.Informers.Resources.{
  Library, GroupVersionResource, GenericInformer, tweaked, choose_informer,
}

-- The type of a version's Foo and its client's methods, in a namespace
pub record NamespacedVersion (C O A B : Type 0) : Type 0 where
  pub kind : ℕ
  pub list : C → Text → O → A
  pub watch : C → Text → O → B

abbrev pub v1_foos : GroupVersionResource
v1_foos = record { group = codes "greeting.foen.ye"; version = codes "v1"; resource = codes "foos" }

abbrev pub v2_foos : GroupVersionResource
v2_foos = record { group = codes "greeting.foen.ye"; version = codes "v2"; resource = codes "foos" }

module _ {C O A B F I J E : Type 0} (go : Library C O A B F I J E) where
  module _ (at : NamespacedVersion C O A B) where
    unfoldable pub new_filtered_foo_informer : C → Text → ℤ → J → Option (O → O) → I
    new_filtered_foo_informer client namespace resync_period indexers tweak =
        go.new_shared_index_informer (λ options. at.list client namespace (tweaked tweak options))
          (λ options. at.watch client namespace (tweaked tweak options)) at.kind resync_period
          indexers

    unfoldable pub new_foo_informer : C → Text → ℤ → J → I
    new_foo_informer client namespace resync_period indexers =
        new_filtered_foo_informer client namespace resync_period indexers none

    unfoldable pub default_foo_informer : Text → Option (O → O) → C → ℤ → I
    default_foo_informer namespace tweak client resync_period =
        new_filtered_foo_informer client namespace resync_period go.namespace_indexers tweak

    -- Informer, of the factory's own group
    unfoldable pub foo_informer :
        {S : Type 0}
        → SharedInformerFactory C (O → O) F I S
        → I × SharedInformerFactory C (O → O) F I S
    foo_informer f =
        informer_for go.set_transform at.kind
          (default_foo_informer f.namespace f.tweak_list_options) f

    unfoldable pub foo_lister :
        {S X L : Type 0}
        → (I → X)
        → (X → L)
        → SharedInformerFactory C (O → O) F I S
        → L × SharedInformerFactory C (O → O) F I S
    foo_lister get_indexer new_lister f =
        let (i, g) = foo_informer f in (new_lister (get_indexer i), g)

  unfoldable pub foo_for_resource :
      {S : Type 0}
      → NamespacedVersion C O A B
      → NamespacedVersion C O A B
      → GroupVersionResource
      → SharedInformerFactory C (O → O) F I S
      → (E ⊎ GenericInformer I) × SharedInformerFactory C (O → O) F I S
  foo_for_resource v1 v2 resource f =
      choose_informer go.no_informer v1_foos v2_foos (foo_informer v1) (foo_informer v2) resource f
