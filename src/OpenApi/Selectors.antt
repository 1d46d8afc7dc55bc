-- ===== src/OpenApi/Selectors.antt =====
-- The schemas of selectors and fields, from
-- kube-aggregator/pkg/generated/openapi/zz_generated.openapi.go.
use cloud_native_tour.Common.{[], ◌∷◌}
use cloud_native_tour.OpenApi.Schema.{
  text, empty_map, typed, referring, defaulted, requiring, extended, none_left, ◌⊕◌, leaf,
  string_type, object_type, array_type, object, array, mapped, OpenApiDefinition, Library,
}

module _ {R : Type 0} (lib : Library R) where
  abbrev pub pkg_apis_meta_v1_field_selector_requirement : OpenApiDefinition R
  pkg_apis_meta_v1_field_selector_requirement = record {
    schema = object (requiring ("key" ∷ "operator" ∷ []) (typed object_type "")) (
        ("key", leaf (defaulted (text "") (typed string_type "")))
        ⊕ ("operator", leaf (defaulted (text "") (typed string_type "")))
        ⊕ (
          "values",
          array (extended (("x-kubernetes-list-type", text "atomic") ∷ []) (typed array_type ""))
              (leaf (defaulted (text "") (typed string_type ""))),
        )
        ⊕ none_left);
    dependencies = [];
  }

  abbrev pub pkg_apis_meta_v1_fields_v1 : OpenApiDefinition R
  pkg_apis_meta_v1_fields_v1 = record { schema = leaf (typed object_type ""); dependencies = [] }

  abbrev pub pkg_apis_meta_v1_label_selector : OpenApiDefinition R
  pkg_apis_meta_v1_label_selector = record {
    schema =
        object (extended (("x-kubernetes-map-type", text "atomic") ∷ []) (typed object_type "")) (
          (
            "matchLabels",
            mapped (typed object_type "") (leaf (defaulted (text "") (typed string_type ""))),
          )
          ⊕ (
            "matchExpressions",
            array (extended (("x-kubernetes-list-type", text "atomic") ∷ []) (typed array_type ""))
                (leaf (
                  defaulted empty_map (
                    referring
                      (lib.ref "k8s.io/apimachinery/pkg/apis/meta/v1.LabelSelectorRequirement")))),
          )
          ⊕ none_left);
    dependencies = ("k8s.io/apimachinery/pkg/apis/meta/v1.LabelSelectorRequirement" ∷ []);
  }

  abbrev pub pkg_apis_meta_v1_label_selector_requirement : OpenApiDefinition R
  pkg_apis_meta_v1_label_selector_requirement = record {
    schema = object (requiring ("key" ∷ "operator" ∷ []) (typed object_type "")) (
        ("key", leaf (defaulted (text "") (typed string_type "")))
        ⊕ ("operator", leaf (defaulted (text "") (typed string_type "")))
        ⊕ (
          "values",
          array (extended (("x-kubernetes-list-type", text "atomic") ∷ []) (typed array_type ""))
              (leaf (defaulted (text "") (typed string_type ""))),
        )
        ⊕ none_left);
    dependencies = [];
  }
