-- ===== src/OpenApi/Runs.antt =====
-- The definitions on a library whose `ref` is the name, and their theorems at one of them.
use cloud_native_tour.Common.{◌≡◌, ◌≢◌, refl, [], ◌∷◌, none, arith}
use Prim.Native.String.{String}
use text.Mathlib.TextEquality.{eq_iff}
use cloud_native_tour.OpenApi.Schema.{Library}
use cloud_native_tour.OpenApi.References.{references, find_definition, IsClosed}
use cloud_native_tour.OpenApi.RegistrationV1
use cloud_native_tour.OpenApi.Greeting
use cloud_native_tour.OpenApi.Statuses
use cloud_native_tour.OpenApi.Definitions.{aggregator_definitions, greeting_definitions}
use cloud_native_tour.OpenApi.Closed.{
  internal_event, aggregator_definitions-IsClosed, greeting_definitions-IsClosed,
}

abbrev lib : Library String
lib = record { ref = λ s. s; schema_type = λ s. "string" ∷ []; schema_format = λ s. "date-time" }

-- The exception refers to a type that has no definition.
object_referred :
    references (Statuses.pkg_apis_meta_v1_internal_event lib).schema
    ≡ "k8s.io/apimachinery/pkg/runtime.Object" ∷ []
unfolding references
object_referred = refl

object_undefined :
    find_definition "k8s.io/apimachinery/pkg/runtime.Object" (aggregator_definitions lib) ≡ none
unfolding find_definition
object_undefined = refl

abbrev api_service_spec : String
api_service_spec =
    "github.com/foenye/cloud-native-tour/kube-aggregator/pkg/apis/registration/v1.APIServiceSpec"

api_service_spec-ne-internal_event : api_service_spec ≢ internal_event
api_service_spec-ne-internal_event e = ground (arith, (eq_iff api_service_spec internal_event).1 e)

aggregator_definitions-IsClosed_example :
    IsClosed lib
      (aggregator_definitions lib)
      (RegistrationV1.pkg_apis_registration_v1_api_service_spec lib)
unfolding find_definition
aggregator_definitions-IsClosed_example =
    aggregator_definitions-IsClosed lib api_service_spec
      (RegistrationV1.pkg_apis_registration_v1_api_service_spec lib)
      api_service_spec-ne-internal_event refl

abbrev foo : String
foo = "github.com/foenye/cloud-native-tour/crd-getting-started/pkg/apis/greeting/v1.Foo"

foo-ne-internal_event : foo ≢ internal_event
foo-ne-internal_event e = ground (arith, (eq_iff foo internal_event).1 e)

greeting_definitions-IsClosed_example :
    IsClosed lib (greeting_definitions lib) (Greeting.pkg_apis_greeting_v1_foo lib)
unfolding find_definition
greeting_definitions-IsClosed_example =
    greeting_definitions-IsClosed lib foo (Greeting.pkg_apis_greeting_v1_foo lib)
      foo-ne-internal_event refl
