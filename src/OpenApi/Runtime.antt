-- ===== src/OpenApi/Runtime.antt =====
-- The schemas of k8s.io/apimachinery/pkg/runtime and version, from
-- kube-aggregator/pkg/generated/openapi/zz_generated.openapi.go.
use cloud_native_tour.Common.{[], ◌∷◌}
use cloud_native_tour.OpenApi.Schema.{
  text, typed, defaulted, requiring, none_left, ◌⊕◌, leaf, string_type, object_type, object,
  OpenApiDefinition, Library,
}

module _ {R : Type 0} (lib : Library R) where
  abbrev pub k8sio_apimachinery_pkg_runtime_raw_extension : OpenApiDefinition R
  k8sio_apimachinery_pkg_runtime_raw_extension = record {
    schema = leaf (typed object_type "");
    dependencies = [];
  }

  abbrev pub k8sio_apimachinery_pkg_runtime_type_meta : OpenApiDefinition R
  k8sio_apimachinery_pkg_runtime_type_meta = record {
    schema = object (typed object_type "") (
        ("apiVersion", leaf (typed string_type ""))
        ⊕ ("kind", leaf (typed string_type ""))
        ⊕ none_left);
    dependencies = [];
  }

  abbrev pub k8sio_apimachinery_pkg_runtime_unknown : OpenApiDefinition R
  k8sio_apimachinery_pkg_runtime_unknown = record {
    schema = object (requiring ("ContentEncoding" ∷ "ContentType" ∷ []) (typed object_type "")) (
        ("apiVersion", leaf (typed string_type ""))
        ⊕ ("kind", leaf (typed string_type ""))
        ⊕ ("ContentEncoding", leaf (defaulted (text "") (typed string_type "")))
        ⊕ ("ContentType", leaf (defaulted (text "") (typed string_type "")))
        ⊕ none_left);
    dependencies = [];
  }

  abbrev pub k8sio_apimachinery_pkg_version_info : OpenApiDefinition R
  k8sio_apimachinery_pkg_version_info = record {
    schema =
        object
          (requiring
            ("major" ∷ "minor" ∷ "gitVersion" ∷ "gitCommit" ∷ "gitTreeState" ∷ "buildDate"
              ∷ "goVersion" ∷ "compiler" ∷ "platform" ∷ [])
            (typed object_type ""))
          (("major", leaf (defaulted (text "") (typed string_type "")))
            ⊕ ("minor", leaf (defaulted (text "") (typed string_type "")))
            ⊕ ("gitVersion", leaf (defaulted (text "") (typed string_type "")))
            ⊕ ("gitCommit", leaf (defaulted (text "") (typed string_type "")))
            ⊕ ("gitTreeState", leaf (defaulted (text "") (typed string_type "")))
            ⊕ ("buildDate", leaf (defaulted (text "") (typed string_type "")))
            ⊕ ("goVersion", leaf (defaulted (text "") (typed string_type "")))
            ⊕ ("compiler", leaf (defaulted (text "") (typed string_type "")))
            ⊕ ("platform", leaf (defaulted (text "") (typed string_type "")))
            ⊕ none_left);
    dependencies = [];
  }
