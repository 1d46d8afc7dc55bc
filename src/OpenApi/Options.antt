-- ===== src/OpenApi/Options.antt =====
-- The schemas of the options of requests, from
-- kube-aggregator/pkg/generated/openapi/zz_generated.openapi.go.
use cloud_native_tour.Common.{[], ◌∷◌, false}
use cloud_native_tour.OpenApi.Schema.{
  text, bool, typed, referring, defaulted, requiring, extended, none_left, ◌⊕◌, leaf, string_type,
  object_type, array_type, integer_type, boolean_type, object, array, OpenApiDefinition, Library,
}

module _ {R : Type 0} (lib : Library R) where
  abbrev pub pkg_apis_meta_v1_apply_options : OpenApiDefinition R
  pkg_apis_meta_v1_apply_options = record {
    schema = object (requiring ("force" ∷ "fieldManager" ∷ []) (typed object_type "")) (
        ("kind", leaf (typed string_type ""))
        ⊕ ("apiVersion", leaf (typed string_type ""))
        ⊕ (
          "dryRun",
          array (extended (("x-kubernetes-list-type", text "atomic") ∷ []) (typed array_type ""))
              (leaf (defaulted (text "") (typed string_type ""))),
        )
        ⊕ ("force", leaf (defaulted (bool false) (typed boolean_type "")))
        ⊕ ("fieldManager", leaf (defaulted (text "") (typed string_type "")))
        ⊕ none_left);
    dependencies = [];
  }

  abbrev pub pkg_apis_meta_v1_create_options : OpenApiDefinition R
  pkg_apis_meta_v1_create_options = record {
    schema = object (typed object_type "") (
        ("kind", leaf (typed string_type ""))
        ⊕ ("apiVersion", leaf (typed string_type ""))
        ⊕ (
          "dryRun",
          array (extended (("x-kubernetes-list-type", text "atomic") ∷ []) (typed array_type ""))
              (leaf (defaulted (text "") (typed string_type ""))),
        )
        ⊕ ("fieldManager", leaf (typed string_type ""))
        ⊕ ("fieldValidation", leaf (typed string_type ""))
        ⊕ none_left);
    dependencies = [];
  }

  abbrev pub pkg_apis_meta_v1_delete_options : OpenApiDefinition R
  pkg_apis_meta_v1_delete_options = record {
    schema = object (typed object_type "") (
        ("kind", leaf (typed string_type ""))
        ⊕ ("apiVersion", leaf (typed string_type ""))
        ⊕ ("gracePeriodSeconds", leaf (typed integer_type "int64"))
        ⊕ (
          "preconditions",
          leaf (referring (lib.ref "k8s.io/apimachinery/pkg/apis/meta/v1.Preconditions")),
        )
        ⊕ ("orphanDependents", leaf (typed boolean_type ""))
        ⊕ ("propagationPolicy", leaf (typed string_type ""))
        ⊕ (
          "dryRun",
          array (extended (("x-kubernetes-list-type", text "atomic") ∷ []) (typed array_type ""))
              (leaf (defaulted (text "") (typed string_type ""))),
        )
        ⊕ ("ignoreStoreReadErrorWithClusterBreakingPotential", leaf (typed boolean_type ""))
        ⊕ none_left);
    dependencies = ("k8s.io/apimachinery/pkg/apis/meta/v1.Preconditions" ∷ []);
  }

  abbrev pub pkg_apis_meta_v1_get_options : OpenApiDefinition R
  pkg_apis_meta_v1_get_options = record {
    schema = object (typed object_type "") (
        ("kind", leaf (typed string_type ""))
        ⊕ ("apiVersion", leaf (typed string_type ""))
        ⊕ ("resourceVersion", leaf (typed string_type ""))
        ⊕ none_left);
    dependencies = [];
  }

  abbrev pub pkg_apis_meta_v1_list_options : OpenApiDefinition R
  pkg_apis_meta_v1_list_options = record {
    schema = object (typed object_type "") (
        ("kind", leaf (typed string_type ""))
        ⊕ ("apiVersion", leaf (typed string_type ""))
        ⊕ ("labelSelector", leaf (typed string_type ""))
        ⊕ ("fieldSelector", leaf (typed string_type ""))
        ⊕ ("watch", leaf (typed boolean_type ""))
        ⊕ ("allowWatchBookmarks", leaf (typed boolean_type ""))
        ⊕ ("resourceVersion", leaf (typed string_type ""))
        ⊕ ("resourceVersionMatch", leaf (typed string_type ""))
        ⊕ ("timeoutSeconds", leaf (typed integer_type "int64"))
        ⊕ ("limit", leaf (typed integer_type "int64"))
        ⊕ ("continue", leaf (typed string_type ""))
        ⊕ ("sendInitialEvents", leaf (typed boolean_type ""))
        ⊕ none_left);
    dependencies = [];
  }

  abbrev pub pkg_apis_meta_v1_patch : OpenApiDefinition R
  pkg_apis_meta_v1_patch = record { schema = leaf (typed object_type ""); dependencies = [] }

  abbrev pub pkg_apis_meta_v1_patch_options : OpenApiDefinition R
  pkg_apis_meta_v1_patch_options = record {
    schema = object (typed object_type "") (
        ("kind", leaf (typed string_type ""))
        ⊕ ("apiVersion", leaf (typed string_type ""))
        ⊕ (
          "dryRun",
          array (extended (("x-kubernetes-list-type", text "atomic") ∷ []) (typed array_type ""))
              (leaf (defaulted (text "") (typed string_type ""))),
        )
        ⊕ ("force", leaf (typed boolean_type ""))
        ⊕ ("fieldManager", leaf (typed string_type ""))
        ⊕ ("fieldValidation", leaf (typed string_type ""))
        ⊕ none_left);
    dependencies = [];
  }

  abbrev pub pkg_apis_meta_v1_preconditions : OpenApiDefinition R
  pkg_apis_meta_v1_preconditions = record {
    schema = object (typed object_type "") (
        ("uid", leaf (typed string_type ""))
        ⊕ ("resourceVersion", leaf (typed string_type ""))
        ⊕ none_left);
    dependencies = [];
  }

  abbrev pub pkg_apis_meta_v1_table_options : OpenApiDefinition R
  pkg_apis_meta_v1_table_options = record {
    schema = object (typed object_type "") (
        ("kind", leaf (typed string_type ""))
        ⊕ ("apiVersion", leaf (typed string_type ""))
        ⊕ ("includeObject", leaf (typed string_type ""))
        ⊕ none_left);
    dependencies = [];
  }

  abbrev pub pkg_apis_meta_v1_update_options : OpenApiDefinition R
  pkg_apis_meta_v1_update_options = record {
    schema = object (typed object_type "") (
        ("kind", leaf (typed string_type ""))
        ⊕ ("apiVersion", leaf (typed string_type ""))
        ⊕ (
          "dryRun",
          array (extended (("x-kubernetes-list-type", text "atomic") ∷ []) (typed array_type ""))
              (leaf (defaulted (text "") (typed string_type ""))),
        )
        ⊕ ("fieldManager", leaf (typed string_type ""))
        ⊕ ("fieldValidation", leaf (typed string_type ""))
        ⊕ none_left);
    dependencies = [];
  }
