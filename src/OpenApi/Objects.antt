-- ===== src/OpenApi/Objects.antt =====
-- The schemas of objects and their metadata, from
-- kube-aggregator/pkg/generated/openapi/zz_generated.openapi.go.
use cloud_native_tour.Common.{[], ◌∷◌}
use cloud_native_tour.OpenApi.Schema.{
  text, empty_map, texts, typed, referring, defaulted, requiring, extended, none_left, ◌⊕◌, leaf,
  string_type, object_type, array_type, integer_type, boolean_type, object, array, mapped,
  OpenApiDefinition, Library,
}

module _ {R : Type 0} (lib : Library R) where
  abbrev pub pkg_apis_meta_v1_list : OpenApiDefinition R
  pkg_apis_meta_v1_list = record {
    schema = object (requiring ("items" ∷ []) (typed object_type "")) (
        ("kind", leaf (typed string_type ""))
        ⊕ ("apiVersion", leaf (typed string_type ""))
        ⊕ (
          "metadata",
          leaf (
              defaulted empty_map
                (referring (lib.ref "k8s.io/apimachinery/pkg/apis/meta/v1.ListMeta"))),
        )
        ⊕ (
          "items",
          array (typed array_type "")
              (leaf (referring (lib.ref "k8s.io/apimachinery/pkg/runtime.RawExtension"))),
        )
        ⊕ none_left);
    dependencies =
        ("k8s.io/apimachinery/pkg/apis/meta/v1.ListMeta"
          ∷ "k8s.io/apimachinery/pkg/runtime.RawExtension" ∷ []);
  }

  abbrev pub pkg_apis_meta_v1_list_meta : OpenApiDefinition R
  pkg_apis_meta_v1_list_meta = record {
    schema = object (typed object_type "") (
        ("selfLink", leaf (typed string_type ""))
        ⊕ ("resourceVersion", leaf (typed string_type ""))
        ⊕ ("continue", leaf (typed string_type ""))
        ⊕ ("remainingItemCount", leaf (typed integer_type "int64"))
        ⊕ none_left);
    dependencies = [];
  }

  abbrev pub pkg_apis_meta_v1_managed_fields_entry : OpenApiDefinition R
  pkg_apis_meta_v1_managed_fields_entry = record {
    schema = object (typed object_type "") (
        ("manager", leaf (typed string_type ""))
        ⊕ ("operation", leaf (typed string_type ""))
        ⊕ ("apiVersion", leaf (typed string_type ""))
        ⊕ ("time", leaf (referring (lib.ref "k8s.io/apimachinery/pkg/apis/meta/v1.Time")))
        ⊕ ("fieldsType", leaf (typed string_type ""))
        ⊕ ("fieldsV1", leaf (referring (lib.ref "k8s.io/apimachinery/pkg/apis/meta/v1.FieldsV1")))
        ⊕ ("subresource", leaf (typed string_type ""))
        ⊕ none_left);
    dependencies =
        ("k8s.io/apimachinery/pkg/apis/meta/v1.FieldsV1"
          ∷ "k8s.io/apimachinery/pkg/apis/meta/v1.Time" ∷ []);
  }

  abbrev pub pkg_apis_meta_v1_object_meta : OpenApiDefinition R
  pkg_apis_meta_v1_object_meta = record {
    schema = object (typed object_type "") (
        ("name", leaf (typed string_type ""))
        ⊕ ("generateName", leaf (typed string_type ""))
        ⊕ ("namespace", leaf (typed string_type ""))
        ⊕ ("selfLink", leaf (typed string_type ""))
        ⊕ ("uid", leaf (typed string_type ""))
        ⊕ ("resourceVersion", leaf (typed string_type ""))
        ⊕ ("generation", leaf (typed integer_type "int64"))
        ⊕ (
          "creationTimestamp",
          leaf (referring (lib.ref "k8s.io/apimachinery/pkg/apis/meta/v1.Time")),
        )
        ⊕ (
          "deletionTimestamp",
          leaf (referring (lib.ref "k8s.io/apimachinery/pkg/apis/meta/v1.Time")),
        )
        ⊕ ("deletionGracePeriodSeconds", leaf (typed integer_type "int64"))
        ⊕ (
          "labels",
          mapped (typed object_type "") (leaf (defaulted (text "") (typed string_type ""))),
        )
        ⊕ (
          "annotations",
          mapped (typed object_type "") (leaf (defaulted (text "") (typed string_type ""))),
        )
        ⊕ (
          "ownerReferences",
          array
              (extended
                (("x-kubernetes-list-map-keys", texts ("uid" ∷ []))
                  ∷ ("x-kubernetes-list-type", text "map")
                  ∷ ("x-kubernetes-patch-merge-key", text "uid")
                  ∷ ("x-kubernetes-patch-strategy", text "merge")
                  ∷ [])
                (typed array_type ""))
              (leaf (
                defaulted empty_map
                  (referring (lib.ref "k8s.io/apimachinery/pkg/apis/meta/v1.OwnerReference")))),
        )
        ⊕ (
          "finalizers",
          array
              (extended
                (("x-kubernetes-list-type", text "set")
                  ∷ ("x-kubernetes-patch-strategy", text "merge")
                  ∷ [])
                (typed array_type ""))
              (leaf (defaulted (text "") (typed string_type ""))),
        )
        ⊕ (
          "managedFields",
          array (extended (("x-kubernetes-list-type", text "atomic") ∷ []) (typed array_type "")) (
              leaf (
                defaulted empty_map
                  (referring (lib.ref "k8s.io/apimachinery/pkg/apis/meta/v1.ManagedFieldsEntry")))),
        )
        ⊕ none_left);
    dependencies =
        ("k8s.io/apimachinery/pkg/apis/meta/v1.ManagedFieldsEntry"
          ∷ "k8s.io/apimachinery/pkg/apis/meta/v1.OwnerReference"
          ∷ "k8s.io/apimachinery/pkg/apis/meta/v1.Time" ∷ []);
  }

  abbrev pub pkg_apis_meta_v1_owner_reference : OpenApiDefinition R
  pkg_apis_meta_v1_owner_reference = record {
    schema =
        object
          (extended (("x-kubernetes-map-type", text "atomic") ∷ [])
            (requiring ("apiVersion" ∷ "kind" ∷ "name" ∷ "uid" ∷ []) (typed object_type "")))
          (("apiVersion", leaf (defaulted (text "") (typed string_type "")))
            ⊕ ("kind", leaf (defaulted (text "") (typed string_type "")))
            ⊕ ("name", leaf (defaulted (text "") (typed string_type "")))
            ⊕ ("uid", leaf (defaulted (text "") (typed string_type "")))
            ⊕ ("controller", leaf (typed boolean_type ""))
            ⊕ ("blockOwnerDeletion", leaf (typed boolean_type ""))
            ⊕ none_left);
    dependencies = [];
  }

  abbrev pub pkg_apis_meta_v1_partial_object_metadata : OpenApiDefinition R
  pkg_apis_meta_v1_partial_object_metadata = record {
    schema = object (typed object_type "") (
        ("kind", leaf (typed string_type ""))
        ⊕ ("apiVersion", leaf (typed string_type ""))
        ⊕ (
          "metadata",
          leaf (
              defaulted empty_map
                (referring (lib.ref "k8s.io/apimachinery/pkg/apis/meta/v1.ObjectMeta"))),
        )
        ⊕ none_left);
    dependencies = ("k8s.io/apimachinery/pkg/apis/meta/v1.ObjectMeta" ∷ []);
  }

  abbrev pub pkg_apis_meta_v1_partial_object_metadata_list : OpenApiDefinition R
  pkg_apis_meta_v1_partial_object_metadata_list = record {
    schema = object (requiring ("items" ∷ []) (typed object_type "")) (
        ("kind", leaf (typed string_type ""))
        ⊕ ("apiVersion", leaf (typed string_type ""))
        ⊕ (
          "metadata",
          leaf (
              defaulted empty_map
                (referring (lib.ref "k8s.io/apimachinery/pkg/apis/meta/v1.ListMeta"))),
        )
        ⊕ (
          "items",
          array (typed array_type "") (
              leaf (
                defaulted empty_map (
                  referring
                    (lib.ref "k8s.io/apimachinery/pkg/apis/meta/v1.PartialObjectMetadata")))),
        )
        ⊕ none_left);
    dependencies =
        ("k8s.io/apimachinery/pkg/apis/meta/v1.ListMeta"
          ∷ "k8s.io/apimachinery/pkg/apis/meta/v1.PartialObjectMetadata" ∷ []);
  }

  abbrev pub pkg_apis_meta_v1_type_meta : OpenApiDefinition R
  pkg_apis_meta_v1_type_meta = record {
    schema = object (typed object_type "") (
        ("kind", leaf (typed string_type ""))
        ⊕ ("apiVersion", leaf (typed string_type ""))
        ⊕ none_left);
    dependencies = [];
  }
