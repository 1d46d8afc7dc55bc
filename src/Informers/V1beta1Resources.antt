-- ===== src/Informers/V1beta1Resources.antt =====
-- kube-aggregator/pkg/client/informers/externalversions/registration/v1beta1/apiservice.go, whose code is
-- that of v1 but for the version.
use cloud_native_tour.Common.{ℤ, Option}
use cloud_native_tour.Informers.Factory.{SharedInformerFactory}
use cloud_native_tour.Informers.Resources.{Library, Version}
use cloud_native_tour.Informers.Resources

module _ {C O A B F I J E : Type 0} (go : Library C O A B F I J E) (at : Version C O A B) where
  abbrev pub new_filtered_api_service_informer : C → ℤ → J → Option (O → O) → I
  new_filtered_api_service_informer = Resources.new_filtered_api_service_informer go at

  abbrev pub new_api_service_informer : C → ℤ → J → I
  new_api_service_informer = Resources.new_api_service_informer go at

  abbrev pub default_informer : Option (O → O) → C → ℤ → I
  default_informer = Resources.default_informer go at

  abbrev pub informer :
      {S : Type 0}
      → SharedInformerFactory C (O → O) F I S
      → I × SharedInformerFactory C (O → O) F I S
  informer = Resources.informer go at

  abbrev pub lister :
      {S X L : Type 0}
      → (I → X)
      → (X → L)
      → SharedInformerFactory C (O → O) F I S
      → L × SharedInformerFactory C (O → O) F I S
  lister = Resources.lister go at
