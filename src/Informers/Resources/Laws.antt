-- ===== src/Informers/Resources/Laws.antt =====
-- ForResource: which informer a resource has, that it stays, and that asking for it is a step of the
-- factory.
use cloud_native_tour.Common.{◌≡◌, refl, sym, ap, ◌∙◌, Option, none, some, inl, inr, ◌⊎◌, text_eq}
use mathlib.Core.Path.{subst}
use cloud_native_tour.Informers.Maps.{find}
use cloud_native_tour.Informers.Factory.{SharedInformerFactory}
use cloud_native_tour.Informers.Factory.Steps.{
  Reach, here, next, asked, informer_for-given, find-informer_for, informer_for-informer_for,
}
use cloud_native_tour.Informers.Resources.Served.{
  Serves, served, choose_informer-served, choose_informer_keeps,
}
use cloud_native_tour.Informers.Resources.{
  Library, Version, GroupVersionResource, GenericInformer, v1_api_services, v1beta1_api_services,
  same_resource, tweaked, default_informer, new_filtered_api_service_informer, informer, generic,
  for_resource,
}

module _ {C O A B F I J E : Type 0} (go : Library C O A B F I J E) where
  -- The informer that the factory holds for a version's type, or else one over the version's List and
  -- Watch, with the factory's filter, transform and resync period.
  abbrev pub version_informer :
      {S : Type 0} → Version C O A B → SharedInformerFactory C (O → O) F I S → I
  version_informer at f = elim (find at.kind f.informers) [
    | none ↦
        go.set_transform
          (go.new_shared_index_informer
            (λ options. at.list f.client (tweaked f.tweak_list_options options))
            (λ options. at.watch f.client (tweaked f.tweak_list_options options)) at.kind
            (elim (find at.kind f.custom_resync) [ none ↦ f.default_resync | some d ↦ d ])
            go.namespace_indexers)
          f.transform
    | some i ↦ i
  ]

  informer-version_informer :
      {S : Type 0} (at : Version C O A B) (f : SharedInformerFactory C (O → O) F I S)
      → (informer go at f).0 ≡ version_informer at f
  unfolding informer default_informer new_filtered_api_service_informer
  informer-version_informer at f =
      informer_for-given go.set_transform at.kind (default_informer go at f.tweak_list_options) f

  -- What ForResource is to answer.
  abbrev pub expected :
      {S : Type 0}
      → GroupVersionResource
      → Option (Version C O A B)
      → SharedInformerFactory C (O → O) F I S
      → E ⊎ GenericInformer I
  expected r none f = inl (go.no_informer r)
  expected r (some at) f =
      inr (record { informer = version_informer at f; resource = (r.group, r.resource) })

  -- What it is to leave: the informer given is stored, and an unknown resource changes nothing.
  abbrev pub Leaves :
      {S : Type 0}
      → Option (Version C O A B)
      → SharedInformerFactory C (O → O) F I S
      → SharedInformerFactory C (O → O) F I S
      → Type 0
  Leaves none f g = g ≡ f
  Leaves (some at) f g = find at.kind g.informers ≡ some (version_informer at f)

  served_lem :
      {S : Type 0} (r : GroupVersionResource) (o : Option (Version C O A B))
      (f h : SharedInformerFactory C (O → O) F I S)
      → Reach go.set_transform (served go.no_informer (λ at. informer go at) r o f).1 h
      → ((served go.no_informer (λ at. informer go at) r o f).0 ≡ expected r o f)
        × Leaves o f (served go.no_informer (λ at. informer go at) r o f).1
        × (served go.no_informer (λ at. informer go at) r o h ≡ (expected r o f, h))
  unfolding informer
  served_lem r none f h reach = (refl, refl, refl)
  served_lem {S = S} r (some at) f h reach =
      let now = default_informer go at f.tweak_list_options in
      let same = informer-version_informer at f in
      let again =
        (informer_for-informer_for go.set_transform at.kind now
          (default_informer go at h.tweak_list_options) f h reach).1 in
      (
        ap (λ i. inr (record { informer = i; resource = (r.group, r.resource) })) same,
        find-informer_for go.set_transform at.kind now f ∙ ap some same,
        ap (generic r) (again ∙ ap (λ i. (i, h)) same),
      )

  for_resource-served :
      {S : Type 0} (v1 v1beta1 : Version C O A B) (r : GroupVersionResource)
      (o : Option (Version C O A B)) (f : SharedInformerFactory C (O → O) F I S)
      → Serves v1_api_services v1beta1_api_services v1 v1beta1 r o
      → for_resource go v1 v1beta1 r f ≡ served go.no_informer (λ at. informer go at) r o f
  unfolding for_resource same_resource text_eq
  for_resource-served v1 v1beta1 r o f serves =
      choose_informer-served go.no_informer (λ at. informer go at) v1_api_services
        v1beta1_api_services r v1 v1beta1 o f refl serves

  -- ForResource of the v1 or the v1beta1 apiservices gives, under the resource's group and name, the
  -- informer that the factory has for that version's type, or else one over that version's List and
  -- Watch with the factory's filter, resync period and transform, and stores it; of any other resource
  -- it gives the error for it and leaves the factory as it was. Asked again for the same resource,
  -- whatever calls and ends of goroutines come between, it gives the same and changes nothing.
  pub for_resource_lem :
      {S : Type 0} (v1 v1beta1 : Version C O A B) (r : GroupVersionResource)
      (o : Option (Version C O A B)) (f h : SharedInformerFactory C (O → O) F I S)
      → Serves v1_api_services v1beta1_api_services v1 v1beta1 r o
      → Reach go.set_transform (for_resource go v1 v1beta1 r f).1 h
      → ((for_resource go v1 v1beta1 r f).0 ≡ expected r o f)
        × Leaves o f (for_resource go v1 v1beta1 r f).1
        × (for_resource go v1 v1beta1 r h ≡ (expected r o f, h))
  for_resource_lem {S = S} v1 v1beta1 r o f h serves reach =
      let chosen = for_resource-served v1 v1beta1 r o f serves in
      let (now, leaves, again) = served_lem r o f h (
        subst
          (λ (p : (E ⊎ GenericInformer I) × SharedInformerFactory C (O → O) F I S).
            Reach go.set_transform p.1 h)
          chosen reach) in
      (
        ap (λ (p : (E ⊎ GenericInformer I) × SharedInformerFactory C (O → O) F I S). p.0) chosen
            ∙ now,
        subst
            (λ (p : (E ⊎ GenericInformer I) × SharedInformerFactory C (O → O) F I S).
              Leaves o f p.1)
            (sym chosen) leaves,
        for_resource-served v1 v1beta1 r o h serves ∙ again,
      )

  informer-Reach :
      {S : Type 0} (at : Version C O A B) (f g : SharedInformerFactory C (O → O) F I S)
      → Reach go.set_transform f g
      → Reach go.set_transform f (informer go at g).1
  unfolding informer
  informer-Reach at f g r = next r (asked at.kind (default_informer go at g.tweak_list_options) g)

  -- What holds of every reachable factory holds after ForResource.
  pub for_resource-Reach :
      {S : Type 0} (v1 v1beta1 : Version C O A B) (r : GroupVersionResource)
      (f : SharedInformerFactory C (O → O) F I S)
      → Reach go.set_transform f (for_resource go v1 v1beta1 r f).1
  unfolding for_resource
  for_resource-Reach v1 v1beta1 r f =
      choose_informer_keeps go.no_informer (informer go v1) (informer go v1beta1)
        (Reach go.set_transform f) (informer-Reach v1 f) (informer-Reach v1beta1 f) v1_api_services
        v1beta1_api_services r f here
