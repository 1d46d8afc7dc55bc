-- ===== src/Informers/Resources.antt =====
-- kube-aggregator/pkg/client/informers/externalversions/registration/v1/apiservice.go, of which that of
-- v1beta1 differs in the version, and generic.go: the informers that are made for a resource.
pub mod Served
pub mod Laws
use cloud_native_tour.Common.{
  ℕ, ℤ, Text, codes, text_eq, Option, none, some, Bool, true, false, if◌then◌else◌, ◌⊎◌, inl, inr,
}
use cloud_native_tour.Informers.Factory.{SharedInformerFactory, informer_for}

-- schema.GroupVersionResource
pub record GroupVersionResource : Type 0 where
  pub group : Text
  pub version : Text
  pub resource : Text

-- What is called of client-go and of the typed clients: `O` is metav1.ListOptions, which a filter changes,
-- `A` and `B` what List and Watch return, `J` cache.Indexers and `E` an error.
pub record Library (C O A B F I J E : Type 0) : Type 0 where
  pub new_shared_index_informer : (O → A) → (O → B) → ℕ → ℤ → J → I
  pub set_transform : I → Option F → I
  pub namespace_indexers : J
  -- fmt.Errorf("no informer found for %v", resource)
  pub no_informer : GroupVersionResource → E

-- The type of a version's APIService and its client's methods
pub record Version (C O A B : Type 0) : Type 0 where
  pub kind : ℕ
  pub list : C → O → A
  pub watch : C → O → B

-- genericInformer; the schema.GroupResource is the group and the resource.
pub record GenericInformer (I : Type 0) : Type 0 where
  pub informer : I
  pub resource : Text × Text

-- APIService of v1 and of v1beta1, by their SchemeGroupVersion
abbrev pub v1_api_services : GroupVersionResource
v1_api_services = record {
  group = codes "registration.foen.ye";
  version = codes "v1";
  resource = codes "apiservices";
}

abbrev pub v1beta1_api_services : GroupVersionResource
v1beta1_api_services = record {
  group = codes "registration.foen.ye";
  version = codes "v1beta1";
  resource = codes "apiservices";
}

unfoldable pub same_resource : GroupVersionResource → GroupVersionResource → Bool
same_resource a b =
    if text_eq a.group b.group
    then (if text_eq a.version b.version then text_eq a.resource b.resource else false)
    else false

-- The filter, unless it is nil
abbrev pub tweaked : {O : Type 0} → Option (O → O) → O → O
tweaked none options = options
tweaked (some tweak) options = tweak options

abbrev pub generic : {G I E : Type 0} → GroupVersionResource → I × G → (E ⊎ GenericInformer I) × G
generic resource (i, g) =
    (inr (record { informer = i; resource = (resource.group, resource.resource) }), g)

-- The switch of ForResource, over what each case asks for.
unfoldable pub choose_informer :
    {G I E : Type 0}
    → (GroupVersionResource → E)
    → GroupVersionResource
    → GroupVersionResource
    → (G → I × G)
    → (G → I × G)
    → GroupVersionResource
    → G
    → (E ⊎ GenericInformer I) × G
choose_informer no_informer here there first second resource f =
    if same_resource resource here
    then generic resource (first f)
    else if same_resource resource there
    then generic resource (second f)
    else (inl (no_informer resource), f)

module _ {C O A B F I J E : Type 0} (go : Library C O A B F I J E) where
  module _ (at : Version C O A B) where
    unfoldable pub new_filtered_api_service_informer : C → ℤ → J → Option (O → O) → I
    new_filtered_api_service_informer client resync_period indexers tweak =
        go.new_shared_index_informer (λ options. at.list client (tweaked tweak options))
          (λ options. at.watch client (tweaked tweak options)) at.kind resync_period indexers

    unfoldable pub new_api_service_informer : C → ℤ → J → I
    new_api_service_informer client resync_period indexers =
        new_filtered_api_service_informer client resync_period indexers none

    unfoldable pub default_informer : Option (O → O) → C → ℤ → I
    default_informer tweak client resync_period =
        new_filtered_api_service_informer client resync_period go.namespace_indexers tweak

    -- Informer, of the factory's own group
    unfoldable pub informer :
        {S : Type 0}
        → SharedInformerFactory C (O → O) F I S
        → I × SharedInformerFactory C (O → O) F I S
    informer f = informer_for go.set_transform at.kind (default_informer f.tweak_list_options) f

    -- Lister, over `GetIndexer` and the lister's constructor
    unfoldable pub lister :
        {S X L : Type 0}
        → (I → X)
        → (X → L)
        → SharedInformerFactory C (O → O) F I S
        → L × SharedInformerFactory C (O → O) F I S
    lister get_indexer new_lister f = let (i, g) = informer f in (new_lister (get_indexer i), g)

  unfoldable pub for_resource :
      {S : Type 0}
      → Version C O A B
      → Version C O A B
      → GroupVersionResource
      → SharedInformerFactory C (O → O) F I S
      → (E ⊎ GenericInformer I) × SharedInformerFactory C (O → O) F I S
  for_resource v1 v1beta1 resource f =
      choose_informer go.no_informer v1_api_services v1beta1_api_services (informer v1)
        (informer v1beta1) resource f
