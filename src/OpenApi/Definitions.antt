-- ===== src/OpenApi/Definitions.antt =====
-- `GetOpenAPIDefinitions` of kube-aggregator/pkg/generated/openapi/zz_generated.openapi.go and of
-- crd-getting-started/pkg/generated/openapi/zz_generated.openapi.go.
use cloud_native_tour.Common.{List, ◌∷◌}
use Prim.Native.String.{String}
use cloud_native_tour.OpenApi.Schema.{OpenApiDefinition, Library}
use cloud_native_tour.OpenApi.Greeting
use cloud_native_tour.OpenApi.RegistrationV1
use cloud_native_tour.OpenApi.RegistrationV1beta1
use cloud_native_tour.OpenApi.LibraryDefinitions.{library_definitions}

module _ {R : Type 0} (lib : Library R) where
  abbrev pub aggregator_definitions : List (String × OpenApiDefinition R)
  aggregator_definitions =
      (
        "github.com/foenye/cloud-native-tour/kube-aggregator/pkg/apis/registration/v1.APIService",
        RegistrationV1.pkg_apis_registration_v1_api_service lib,
      )
      ∷ (
        "github.com/foenye/cloud-native-tour/kube-aggregator/pkg/apis/registration/v1.APIServiceCondition",
        RegistrationV1.pkg_apis_registration_v1_api_service_condition lib,
      )
      ∷ (
        "github.com/foenye/cloud-native-tour/kube-aggregator/pkg/apis/registration/v1.APIServiceList",
        RegistrationV1.pkg_apis_registration_v1_api_service_list lib,
      )
      ∷ (
        "github.com/foenye/cloud-native-tour/kube-aggregator/pkg/apis/registration/v1.APIServiceSpec",
        RegistrationV1.pkg_apis_registration_v1_api_service_spec lib,
      )
      ∷ (
        "github.com/foenye/cloud-native-tour/kube-aggregator/pkg/apis/registration/v1.APIServiceStatus",
        RegistrationV1.pkg_apis_registration_v1_api_service_status lib,
      )
      ∷ (
        "github.com/foenye/cloud-native-tour/kube-aggregator/pkg/apis/registration/v1.ServiceReference",
        RegistrationV1.pkg_apis_registration_v1_service_reference lib,
      )
      ∷ (
        "github.com/foenye/cloud-native-tour/kube-aggregator/pkg/apis/registration/v1beta1.APIService",
        RegistrationV1beta1.pkg_apis_registration_v1beta1_api_service lib,
      )
      ∷ (
        "github.com/foenye/cloud-native-tour/kube-aggregator/pkg/apis/registration/v1beta1.APIServiceCondition",
        RegistrationV1beta1.pkg_apis_registration_v1beta1_api_service_condition lib,
      )
      ∷ (
        "github.com/foenye/cloud-native-tour/kube-aggregator/pkg/apis/registration/v1beta1.APIServiceList",
        RegistrationV1beta1.pkg_apis_registration_v1beta1_api_service_list lib,
      )
      ∷ (
        "github.com/foenye/cloud-native-tour/kube-aggregator/pkg/apis/registration/v1beta1.APIServiceSpec",
        RegistrationV1beta1.pkg_apis_registration_v1beta1_api_service_spec lib,
      )
      ∷ (
        "github.com/foenye/cloud-native-tour/kube-aggregator/pkg/apis/registration/v1beta1.APIServiceStatus",
        RegistrationV1beta1.pkg_apis_registration_v1beta1_api_service_status lib,
      )
      ∷ (
        "github.com/foenye/cloud-native-tour/kube-aggregator/pkg/apis/registration/v1beta1.ServiceReference",
        RegistrationV1beta1.pkg_apis_registration_v1beta1_service_reference lib,
      )
      ∷ library_definitions lib

  abbrev pub greeting_definitions : List (String × OpenApiDefinition R)
  greeting_definitions =
      (
        "github.com/foenye/cloud-native-tour/crd-getting-started/pkg/apis/greeting/v1.Foo",
        Greeting.pkg_apis_greeting_v1_foo lib,
      )
      ∷ (
        "github.com/foenye/cloud-native-tour/crd-getting-started/pkg/apis/greeting/v1.FooList",
        Greeting.pkg_apis_greeting_v1_foo_list lib,
      )
      ∷ (
        "github.com/foenye/cloud-native-tour/crd-getting-started/pkg/apis/greeting/v1.FooSpec",
        Greeting.pkg_apis_greeting_v1_foo_spec lib,
      )
      ∷ (
        "github.com/foenye/cloud-native-tour/crd-getting-started/pkg/apis/greeting/v2.Foo",
        Greeting.pkg_apis_greeting_v2_foo lib,
      )
      ∷ (
        "github.com/foenye/cloud-native-tour/crd-getting-started/pkg/apis/greeting/v2.FooCondition",
        Greeting.pkg_apis_greeting_v2_foo_condition lib,
      )
      ∷ (
        "github.com/foenye/cloud-native-tour/crd-getting-started/pkg/apis/greeting/v2.FooConfig",
        Greeting.pkg_apis_greeting_v2_foo_config lib,
      )
      ∷ (
        "github.com/foenye/cloud-native-tour/crd-getting-started/pkg/apis/greeting/v2.FooList",
        Greeting.pkg_apis_greeting_v2_foo_list lib,
      )
      ∷ (
        "github.com/foenye/cloud-native-tour/crd-getting-started/pkg/apis/greeting/v2.FooSpec",
        Greeting.pkg_apis_greeting_v2_foo_spec lib,
      )
      ∷ (
        "github.com/foenye/cloud-native-tour/crd-getting-started/pkg/apis/greeting/v2.FooStatus",
        Greeting.pkg_apis_greeting_v2_foo_status lib,
      )
      ∷ library_definitions lib
