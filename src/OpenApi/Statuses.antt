-- ===== src/OpenApi/Statuses.antt =====
-- The schemas of statuses, conditions and events, from
-- kube-aggregator/pkg/generated/openapi/zz_generated.openapi.go.
use cloud_native_tour.Common.{[], ◌∷◌}
use cloud_native_tour.OpenApi.Schema.{
  text, empty_map, typed, referring, defaulted, requiring, extended, none_left, ◌⊕◌, leaf,
  string_type, object_type, array_type, integer_type, object, array, OpenApiDefinition, Library,
}

module _ {R : Type 0} (lib : Library R) where
  abbrev pub pkg_apis_meta_v1_condition : OpenApiDefinition R
  pkg_apis_meta_v1_condition = record {
    schema =
        object
          (requiring ("type" ∷ "status" ∷ "lastTransitionTime" ∷ "reason" ∷ "message" ∷ [])
            (typed object_type ""))
          (("type", leaf (defaulted (text "") (typed string_type "")))
            ⊕ ("status", leaf (defaulted (text "") (typed string_type "")))
            ⊕ ("observedGeneration", leaf (typed integer_type "int64"))
            ⊕ (
              "lastTransitionTime",
              leaf (referring (lib.ref "k8s.io/apimachinery/pkg/apis/meta/v1.Time")),
            )
            ⊕ ("reason", leaf (defaulted (text "") (typed string_type "")))
            ⊕ ("message", leaf (defaulted (text "") (typed string_type "")))
            ⊕ none_left);
    dependencies = ("k8s.io/apimachinery/pkg/apis/meta/v1.Time" ∷ []);
  }

  abbrev pub pkg_apis_meta_v1_internal_event : OpenApiDefinition R
  pkg_apis_meta_v1_internal_event = record {
    schema = object (requiring ("Type" ∷ "Object" ∷ []) (typed object_type "")) (
        ("Type", leaf (defaulted (text "") (typed string_type "")))
        ⊕ ("Object", leaf (referring (lib.ref "k8s.io/apimachinery/pkg/runtime.Object")))
        ⊕ none_left);
    dependencies = ("k8s.io/apimachinery/pkg/runtime.Object" ∷ []);
  }

  abbrev pub pkg_apis_meta_v1_status : OpenApiDefinition R
  pkg_apis_meta_v1_status = record {
    schema = object (typed object_type "") (
        ("kind", leaf (typed string_type ""))
        ⊕ ("apiVersion", leaf (typed string_type ""))
        ⊕ (
          "metadata",
          leaf (
              defaulted empty_map
                (referring (lib.ref "k8s.io/apimachinery/pkg/apis/meta/v1.ListMeta"))),
        )
        ⊕ ("status", leaf (typed string_type ""))
        ⊕ ("message", leaf (typed string_type ""))
        ⊕ ("reason", leaf (typed string_type ""))
        ⊕ (
          "details",
          leaf (
              extended (("x-kubernetes-list-type", text "atomic") ∷ [])
                (referring (lib.ref "k8s.io/apimachinery/pkg/apis/meta/v1.StatusDetails"))),
        )
        ⊕ ("code", leaf (typed integer_type "int32"))
        ⊕ none_left);
    dependencies =
        ("k8s.io/apimachinery/pkg/apis/meta/v1.ListMeta"
          ∷ "k8s.io/apimachinery/pkg/apis/meta/v1.StatusDetails" ∷ []);
  }

  abbrev pub pkg_apis_meta_v1_status_cause : OpenApiDefinition R
  pkg_apis_meta_v1_status_cause = record {
    schema = object (typed object_type "") (
        ("reason", leaf (typed string_type ""))
        ⊕ ("message", leaf (typed string_type ""))
        ⊕ ("field", leaf (typed string_type ""))
        ⊕ none_left);
    dependencies = [];
  }

  abbrev pub pkg_apis_meta_v1_status_details : OpenApiDefinition R
  pkg_apis_meta_v1_status_details = record {
    schema = object (typed object_type "") (
        ("name", leaf (typed string_type ""))
        ⊕ ("group", leaf (typed string_type ""))
        ⊕ ("kind", leaf (typed string_type ""))
        ⊕ ("uid", leaf (typed string_type ""))
        ⊕ (
          "causes",
          array (extended (("x-kubernetes-list-type", text "atomic") ∷ []) (typed array_type "")) (
              leaf (
                defaulted empty_map
                  (referring (lib.ref "k8s.io/apimachinery/pkg/apis/meta/v1.StatusCause")))),
        )
        ⊕ ("retryAfterSeconds", leaf (typed integer_type "int32"))
        ⊕ none_left);
    dependencies = ("k8s.io/apimachinery/pkg/apis/meta/v1.StatusCause" ∷ []);
  }

  abbrev pub pkg_apis_meta_v1_watch_event : OpenApiDefinition R
  pkg_apis_meta_v1_watch_event = record {
    schema = object (requiring ("type" ∷ "object" ∷ []) (typed object_type "")) (
        ("type", leaf (defaulted (text "") (typed string_type "")))
        ⊕ ("object", leaf (referring (lib.ref "k8s.io/apimachinery/pkg/runtime.RawExtension")))
        ⊕ none_left);
    dependencies = ("k8s.io/apimachinery/pkg/runtime.RawExtension" ∷ []);
  }
