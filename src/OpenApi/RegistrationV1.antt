-- ===== src/OpenApi/RegistrationV1.antt =====
-- The schemas of registration/v1, from
-- kube-aggregator/pkg/generated/openapi/zz_generated.openapi.go.
use cloud_native_tour.Common.{[], ◌∷◌}
use cloud_native_tour.OpenApi.Schema.{
  text, number, empty_map, texts, typed, referring, defaulted, requiring, extended, none_left, ◌⊕◌,
  leaf, string_type, object_type, array_type, integer_type, boolean_type, object, array,
  OpenApiDefinition, Library,
}

module _ {R : Type 0} (lib : Library R) where
  abbrev pub pkg_apis_registration_v1_api_service : OpenApiDefinition R
  pkg_apis_registration_v1_api_service = record {
    schema = object (typed object_type "") (
        ("kind", leaf (typed string_type ""))
        ⊕ ("apiVersion", leaf (typed string_type ""))
        ⊕ (
          "metadata",
          leaf (
              defaulted empty_map
                (referring (lib.ref "k8s.io/apimachinery/pkg/apis/meta/v1.ObjectMeta"))),
        )
        ⊕ (
          "spec",
          leaf (
              defaulted empty_map (
                referring (
                  lib.ref
                    "github.com/foenye/cloud-native-tour/kube-aggregator/pkg/apis/registration/v1.APIServiceSpec"))),
        )
        ⊕ (
          "status",
          leaf (
              defaulted empty_map (
                referring (
                  lib.ref
                    "github.com/foenye/cloud-native-tour/kube-aggregator/pkg/apis/registration/v1.APIServiceStatus"))),
        )
        ⊕ none_left);
    dependencies =
        ("github.com/foenye/cloud-native-tour/kube-aggregator/pkg/apis/registration/v1.APIServiceSpec"
          ∷ "github.com/foenye/cloud-native-tour/kube-aggregator/pkg/apis/registration/v1.APIServiceStatus"
          ∷ "k8s.io/apimachinery/pkg/apis/meta/v1.ObjectMeta" ∷ []);
  }

  abbrev pub pkg_apis_registration_v1_api_service_condition : OpenApiDefinition R
  pkg_apis_registration_v1_api_service_condition = record {
    schema = object (requiring ("type" ∷ "status" ∷ []) (typed object_type "")) (
        ("type", leaf (defaulted (text "") (typed string_type "")))
        ⊕ ("status", leaf (defaulted (text "") (typed string_type "")))
        ⊕ (
          "lastTransitionTime",
          leaf (referring (lib.ref "k8s.io/apimachinery/pkg/apis/meta/v1.Time")),
        )
        ⊕ ("reason", leaf (typed string_type ""))
        ⊕ ("message", leaf (typed string_type ""))
        ⊕ none_left);
    dependencies = ("k8s.io/apimachinery/pkg/apis/meta/v1.Time" ∷ []);
  }

  abbrev pub pkg_apis_registration_v1_api_service_list : OpenApiDefinition R
  pkg_apis_registration_v1_api_service_list = record {
    schema = object (requiring ("items" ∷ []) (typed object_type "")) (
        ("kind", leaf (typed string_type ""))
        ⊕ ("apiVersion", leaf (typed string_type ""))
        ⊕ (
          "metadata",
          leaf (
              defaulted empty_map
                (referring (lib.ref "k8s.io/apimachinery/pkg/apis/meta/v1.ListMeta"))),
        )
        ⊕ (
          "items",
          array (typed array_type "") (
              leaf (
                defaulted empty_map (
                  referring (
                    lib.ref
                      "github.com/foenye/cloud-native-tour/kube-aggregator/pkg/apis/registration/v1.APIService")))),
        )
        ⊕ none_left);
    dependencies =
        ("github.com/foenye/cloud-native-tour/kube-aggregator/pkg/apis/registration/v1.APIService"
          ∷ "k8s.io/apimachinery/pkg/apis/meta/v1.ListMeta" ∷ []);
  }

  abbrev pub pkg_apis_registration_v1_api_service_spec : OpenApiDefinition R
  pkg_apis_registration_v1_api_service_spec = record {
    schema =
        object (requiring ("groupPriorityMinimum" ∷ "versionPriority" ∷ []) (typed object_type ""))
          ((
            "service",
            leaf (
                referring (
                  lib.ref
                    "github.com/foenye/cloud-native-tour/kube-aggregator/pkg/apis/registration/v1.ServiceReference")),
          )
            ⊕ ("group", leaf (typed string_type ""))
            ⊕ ("version", leaf (typed string_type ""))
            ⊕ ("insecureSkipTLSVerify", leaf (typed boolean_type ""))
            ⊕ (
              "caBundle",
              leaf (
                  extended (("x-kubernetes-list-type", text "atomic") ∷ [])
                    (typed string_type "byte")),
            )
            ⊕ ("groupPriorityMinimum", leaf (defaulted (number 0) (typed integer_type "int32")))
            ⊕ ("versionPriority", leaf (defaulted (number 0) (typed integer_type "int32")))
            ⊕ none_left);
    dependencies =
        ("github.com/foenye/cloud-native-tour/kube-aggregator/pkg/apis/registration/v1.ServiceReference"
          ∷ []);
  }

  abbrev pub pkg_apis_registration_v1_api_service_status : OpenApiDefinition R
  pkg_apis_registration_v1_api_service_status = record {
    schema = object (typed object_type "") (
        (
          "conditions",
          array
              (extended
                (("x-kubernetes-list-map-keys", texts ("type" ∷ []))
                  ∷ ("x-kubernetes-list-type", text "map")
                  ∷ ("x-kubernetes-patch-merge-key", text "type")
                  ∷ ("x-kubernetes-patch-strategy", text "merge")
                  ∷ [])
                (typed array_type ""))
              (leaf (
                defaulted empty_map (
                  referring (
                    lib.ref
                      "github.com/foenye/cloud-native-tour/kube-aggregator/pkg/apis/registration/v1.APIServiceCondition")))),
        )
        ⊕ none_left);
    dependencies =
        ("github.com/foenye/cloud-native-tour/kube-aggregator/pkg/apis/registration/v1.APIServiceCondition"
          ∷ []);
  }

  abbrev pub pkg_apis_registration_v1_service_reference : OpenApiDefinition R
  pkg_apis_registration_v1_service_reference = record {
    schema = object (typed object_type "") (
        ("namespace", leaf (typed string_type ""))
        ⊕ ("name", leaf (typed string_type ""))
        ⊕ ("port", leaf (typed integer_type "int32"))
        ⊕ none_left);
    dependencies = [];
  }
