-- ===== src/OpenApi/Tables.antt =====
-- The schemas of tables, from
-- kube-aggregator/pkg/generated/openapi/zz_generated.openapi.go.
use cloud_native_tour.Common.{[], ◌∷◌}
use cloud_native_tour.OpenApi.Schema.{
  text, number, empty_map, typed, referring, defaulted, requiring, extended, none_left, ◌⊕◌, leaf,
  string_type, object_type, array_type, integer_type, object, array, OpenApiDefinition, Library,
}

module _ {R : Type 0} (lib : Library R) where
  abbrev pub pkg_apis_meta_v1_table : OpenApiDefinition R
  pkg_apis_meta_v1_table = record {
    schema = object (requiring ("columnDefinitions" ∷ "rows" ∷ []) (typed object_type "")) (
        ("kind", leaf (typed string_type ""))
        ⊕ ("apiVersion", leaf (typed string_type ""))
        ⊕ (
          "metadata",
          leaf (
              defaulted empty_map
                (referring (lib.ref "k8s.io/apimachinery/pkg/apis/meta/v1.ListMeta"))),
        )
        ⊕ (
          "columnDefinitions",
          array (extended (("x-kubernetes-list-type", text "atomic") ∷ []) (typed array_type "")) (
              leaf (
                defaulted empty_map (
                  referring
                    (lib.ref "k8s.io/apimachinery/pkg/apis/meta/v1.TableColumnDefinition")))),
        )
        ⊕ (
          "rows",
          array (extended (("x-kubernetes-list-type", text "atomic") ∷ []) (typed array_type "")) (
              leaf (
                defaulted empty_map
                  (referring (lib.ref "k8s.io/apimachinery/pkg/apis/meta/v1.TableRow")))),
        )
        ⊕ none_left);
    dependencies =
        ("k8s.io/apimachinery/pkg/apis/meta/v1.ListMeta"
          ∷ "k8s.io/apimachinery/pkg/apis/meta/v1.TableColumnDefinition"
          ∷ "k8s.io/apimachinery/pkg/apis/meta/v1.TableRow" ∷ []);
  }

  abbrev pub pkg_apis_meta_v1_table_column_definition : OpenApiDefinition R
  pkg_apis_meta_v1_table_column_definition = record {
    schema =
        object
          (requiring ("name" ∷ "type" ∷ "format" ∷ "description" ∷ "priority" ∷ [])
            (typed object_type ""))
          (("name", leaf (defaulted (text "") (typed string_type "")))
            ⊕ ("type", leaf (defaulted (text "") (typed string_type "")))
            ⊕ ("format", leaf (defaulted (text "") (typed string_type "")))
            ⊕ ("description", leaf (defaulted (text "") (typed string_type "")))
            ⊕ ("priority", leaf (defaulted (number 0) (typed integer_type "int32")))
            ⊕ none_left);
    dependencies = [];
  }

  abbrev pub pkg_apis_meta_v1_table_row : OpenApiDefinition R
  pkg_apis_meta_v1_table_row = record {
    schema = object (requiring ("cells" ∷ []) (typed object_type "")) (
        (
          "cells",
          array (extended (("x-kubernetes-list-type", text "atomic") ∷ []) (typed array_type ""))
              (leaf (typed object_type "")),
        )
        ⊕ (
          "conditions",
          array (extended (("x-kubernetes-list-type", text "atomic") ∷ []) (typed array_type "")) (
              leaf (
                defaulted empty_map
                  (referring (lib.ref "k8s.io/apimachinery/pkg/apis/meta/v1.TableRowCondition")))),
        )
        ⊕ ("object", leaf (referring (lib.ref "k8s.io/apimachinery/pkg/runtime.RawExtension")))
        ⊕ none_left);
    dependencies =
        ("k8s.io/apimachinery/pkg/apis/meta/v1.TableRowCondition"
          ∷ "k8s.io/apimachinery/pkg/runtime.RawExtension" ∷ []);
  }

  abbrev pub pkg_apis_meta_v1_table_row_condition : OpenApiDefinition R
  pkg_apis_meta_v1_table_row_condition = record {
    schema = object (requiring ("type" ∷ "status" ∷ []) (typed object_type "")) (
        ("type", leaf (defaulted (text "") (typed string_type "")))
        ⊕ ("status", leaf (defaulted (text "") (typed string_type "")))
        ⊕ ("reason", leaf (typed string_type ""))
        ⊕ ("message", leaf (typed string_type ""))
        ⊕ none_left);
    dependencies = [];
  }
