-- ===== src/Informers/V2Resources.antt =====
-- crd-getting-started/pkg/client/informers/externalversions/greeting/v2/foo.go, whose code is
-- that of v1 but for the version.
use cloud_native_tour.Common.{ℤ, Text, Option}
use cloud_native_tour.Informers.Factory.{SharedInformerFactory}
use cloud_native_tour.Informers.Resources.{Library}
use cloud_native_tour.Informers.GreetingResources
use cloud_native_tour.Informers.GreetingResources.{NamespacedVersion}

module _ {C O A B F I J E : Type 0} (go : Library C O A B F I J E)
    (at : NamespacedVersion C O A B) where
  abbrev pub new_filtered_foo_informer : C → Text → ℤ → J → Option (O → O) → I
  new_filtered_foo_informer = GreetingResources.new_filtered_foo_informer go at

  abbrev pub new_foo_informer : C → Text → ℤ → J → I
  new_foo_informer = GreetingResources.new_foo_informer go at

  abbrev pub default_foo_informer : Text → Option (O → O) → C → ℤ → I
  default_foo_informer = GreetingResources.default_foo_informer go at

  abbrev pub foo_informer :
      {S : Type 0}
      → SharedInformerFactory C (O → O) F I S
      → I × SharedInformerFactory C (O → O) F I S
  foo_informer = GreetingResources.foo_informer go at

  abbrev pub foo_lister :
      {S X L : Type 0}
      → (I → X)
      → (X → L)
      → SharedInformerFactory C (O → O) F I S
      → L × SharedInformerFactory C (O → O) F I S
  foo_lister = GreetingResources.foo_lister go at
