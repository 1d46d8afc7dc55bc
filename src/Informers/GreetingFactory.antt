-- ===== src/Informers/GreetingFactory.antt =====
-- crd-getting-started/pkg/client/informers/externalversions/factory.go, which is the other factory's code
-- over the clientset of the greeting API.
use cloud_native_tour.Common.{ℕ, ℤ, Text, List, Option, Bool}
use cloud_native_tour.Informers.Factory as Factory

abbrev pub SharedInformerFactory : Type 0 → Type 0 → Type 0 → Type 0 → Type 0 → Type 0
SharedInformerFactory C W F I S = Factory.SharedInformerFactory C W F I S

abbrev pub SharedInformerOption : Type 0 → Type 0 → Type 0 → Type 0 → Type 0 → Type 0
SharedInformerOption C W F I S = SharedInformerFactory C W F I S → SharedInformerFactory C W F I S

module _ {C W F I S : Type 0} where
  abbrev pub with_custom_resync_config : List (ℕ × ℤ) → SharedInformerOption C W F I S
  with_custom_resync_config config f = Factory.with_custom_resync_config config f

  abbrev pub with_tweak_list_options : W → SharedInformerOption C W F I S
  with_tweak_list_options tweak f = Factory.with_tweak_list_options tweak f

  abbrev pub with_namespace : Text → SharedInformerOption C W F I S
  with_namespace namespace f = Factory.with_namespace namespace f

  abbrev pub with_transform : F → SharedInformerOption C W F I S
  with_transform transform f = Factory.with_transform transform f

  abbrev pub new_shared_informer_factory_with_options :
      C → ℤ → List (SharedInformerOption C W F I S) → SharedInformerFactory C W F I S
  new_shared_informer_factory_with_options client default_resync options =
      Factory.new_shared_informer_factory_with_options client default_resync options

  abbrev pub new_shared_informer_factory : C → ℤ → SharedInformerFactory C W F I S
  new_shared_informer_factory client default_resync =
      Factory.new_shared_informer_factory client default_resync

  abbrev pub new_filtered_shared_informer_factory :
      C → ℤ → Text → W → SharedInformerFactory C W F I S
  new_filtered_shared_informer_factory client default_resync namespace tweak =
      Factory.new_filtered_shared_informer_factory client default_resync namespace tweak

  abbrev pub start : S → SharedInformerOption C W F I S
  start stop f = Factory.start stop f

  abbrev pub shutdown : SharedInformerOption C W F I S
  shutdown f = Factory.shutdown f

  abbrev pub informer_for :
      (I → Option F → I)
      → ℕ
      → (C → ℤ → I)
      → SharedInformerFactory C W F I S
      → I × SharedInformerFactory C W F I S
  informer_for set_transform kind new_func f = Factory.informer_for set_transform kind new_func f

  abbrev pub wait_for_cache_sync : (I → Bool) → SharedInformerFactory C W F I S → List (ℕ × Bool)
  wait_for_cache_sync wait f = Factory.wait_for_cache_sync wait f
