-- ===== src/Informers/GreetingResources/Laws.antt =====
-- As for kube-aggregator: which informer a resource has, that it stays, and that asking for it is a
-- step of the factory.
use cloud_native_tour.Common.{◌≡◌, refl, ap, ◌∙◌, Option, none, some, inl, inr, ◌⊎◌, text_eq}
use mathlib.Core.Path.{subst}
use cloud_native_tour.Informers.Factory.{SharedInformerFactory}
use cloud_native_tour.Informers.Factory.Steps.{
  Reach, here, next, asked, given, informer_for-given, informer_for-informer_for,
}
use cloud_native_tour.Informers.Resources.{
  Library, GroupVersionResource, GenericInformer, generic, same_resource,
}
use cloud_native_tour.Informers.Resources.Served.{
  Serves, served, choose_informer-served, choose_informer_keeps,
}
use cloud_native_tour.Informers.GreetingResources.{
  NamespacedVersion, v1_foos, v2_foos, default_foo_informer, foo_informer, foo_for_resource,
}

module _ {C O A B F I J E : Type 0} (go : Library C O A B F I J E) where
  abbrev pub foo_version_informer :
      {S : Type 0} → NamespacedVersion C O A B → SharedInformerFactory C (O → O) F I S → I
  foo_version_informer at f =
      given go.set_transform at.kind (default_foo_informer go at f.namespace f.tweak_list_options) f

  abbrev pub foo_expected :
      {S : Type 0}
      → GroupVersionResource
      → Option (NamespacedVersion C O A B)
      → SharedInformerFactory C (O → O) F I S
      → E ⊎ GenericInformer I
  foo_expected r none f = inl (go.no_informer r)
  foo_expected r (some at) f =
      inr (record { informer = foo_version_informer at f; resource = (r.group, r.resource) })

  foo_served_lem :
      {S : Type 0} (r : GroupVersionResource) (o : Option (NamespacedVersion C O A B))
      (f h : SharedInformerFactory C (O → O) F I S)
      → Reach go.set_transform (served go.no_informer (λ at. foo_informer go at) r o f).1 h
      → ((served go.no_informer (λ at. foo_informer go at) r o f).0 ≡ foo_expected r o f)
        × (served go.no_informer (λ at. foo_informer go at) r o h ≡ (foo_expected r o f, h))
  unfolding foo_informer
  foo_served_lem r none f h reach = (refl, refl)
  foo_served_lem {S = S} r (some at) f h reach =
      let now = default_foo_informer go at f.namespace f.tweak_list_options in
      let same = informer_for-given go.set_transform at.kind now f in
      let again =
        (informer_for-informer_for go.set_transform at.kind now
          (default_foo_informer go at h.namespace h.tweak_list_options) f h reach).1 in
      (
        ap (λ i. inr (record { informer = i; resource = (r.group, r.resource) })) same,
        ap (generic r) (again ∙ ap (λ i. (i, h)) same),
      )

  foo_for_resource-served :
      {S : Type 0} (v1 v2 : NamespacedVersion C O A B) (r : GroupVersionResource)
      (o : Option (NamespacedVersion C O A B)) (f : SharedInformerFactory C (O → O) F I S)
      → Serves v1_foos v2_foos v1 v2 r o
      → foo_for_resource go v1 v2 r f ≡ served go.no_informer (λ at. foo_informer go at) r o f
  unfolding foo_for_resource same_resource text_eq
  foo_for_resource-served v1 v2 r o f serves =
      choose_informer-served go.no_informer (λ at. foo_informer go at) v1_foos v2_foos r v1 v2 o f
        refl serves

  -- As for kube-aggregator, of the greeting group's versions: which informer ForResource gives, and that
  -- it gives it again whatever steps follow.
  pub foo_for_resource_lem :
      {S : Type 0} (v1 v2 : NamespacedVersion C O A B) (r : GroupVersionResource)
      (o : Option (NamespacedVersion C O A B)) (f h : SharedInformerFactory C (O → O) F I S)
      → Serves v1_foos v2_foos v1 v2 r o
      → Reach go.set_transform (foo_for_resource go v1 v2 r f).1 h
      → ((foo_for_resource go v1 v2 r f).0 ≡ foo_expected r o f)
        × (foo_for_resource go v1 v2 r h ≡ (foo_expected r o f, h))
  foo_for_resource_lem {S = S} v1 v2 r o f h serves reach =
      let chosen = foo_for_resource-served v1 v2 r o f serves in
      let (now, again) = foo_served_lem r o f h (
        subst
          (λ (p : (E ⊎ GenericInformer I) × SharedInformerFactory C (O → O) F I S).
            Reach go.set_transform p.1 h)
          chosen reach) in
      (
        ap (λ (p : (E ⊎ GenericInformer I) × SharedInformerFactory C (O → O) F I S). p.0) chosen
            ∙ now,
        foo_for_resource-served v1 v2 r o h serves ∙ again,
      )

  foo_informer-Reach :
      {S : Type 0} (at : NamespacedVersion C O A B) (f g : SharedInformerFactory C (O → O) F I S)
      → Reach go.set_transform f g
      → Reach go.set_transform f (foo_informer go at g).1
  unfolding foo_informer
  foo_informer-Reach at f g r =
      next r (asked at.kind (default_foo_informer go at g.namespace g.tweak_list_options) g)

  pub foo_for_resource-Reach :
      {S : Type 0} (v1 v2 : NamespacedVersion C O A B) (r : GroupVersionResource)
      (f : SharedInformerFactory C (O → O) F I S)
      → Reach go.set_transform f (foo_for_resource go v1 v2 r f).1
  unfolding foo_for_resource
  foo_for_resource-Reach v1 v2 r f =
      choose_informer_keeps go.no_informer (foo_informer go v1) (foo_informer go v2)
        (Reach go.set_transform f) (foo_informer-Reach v1 f) (foo_informer-Reach v2 f) v1_foos
        v2_foos r f here
