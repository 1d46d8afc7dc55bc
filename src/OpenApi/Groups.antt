-- ===== src/OpenApi/Groups.antt =====
-- The schemas of API groups, resources and versions, from
-- kube-aggregator/pkg/generated/openapi/zz_generated.openapi.go.
use cloud_native_tour.Common.{[], ◌∷◌, false}
use cloud_native_tour.OpenApi.Schema.{
  text, bool, empty_map, typed, referring, defaulted, requiring, extended, none_left, ◌⊕◌, leaf,
  string_type, object_type, array_type, boolean_type, object, array, OpenApiDefinition, Library,
}

module _ {R : Type 0} (lib : Library R) where
  abbrev pub pkg_apis_meta_v1_api_group : OpenApiDefinition R
  pkg_apis_meta_v1_api_group = record {
    schema = object (requiring ("name" ∷ "versions" ∷ []) (typed object_type "")) (
        ("kind", leaf (typed string_type ""))
        ⊕ ("apiVersion", leaf (typed string_type ""))
        ⊕ ("name", leaf (defaulted (text "") (typed string_type "")))
        ⊕ (
          "versions",
          array (extended (("x-kubernetes-list-type", text "atomic") ∷ []) (typed array_type "")) (
              leaf (
                defaulted empty_map (
                  referring
                    (lib.ref "k8s.io/apimachinery/pkg/apis/meta/v1.GroupVersionForDiscovery")))),
        )
        ⊕ (
          "preferredVersion",
          leaf (
              defaulted empty_map (
                referring
                  (lib.ref "k8s.io/apimachinery/pkg/apis/meta/v1.GroupVersionForDiscovery"))),
        )
        ⊕ (
          "serverAddressByClientCIDRs",
          array (extended (("x-kubernetes-list-type", text "atomic") ∷ []) (typed array_type "")) (
              leaf (
                defaulted empty_map (
                  referring
                    (lib.ref "k8s.io/apimachinery/pkg/apis/meta/v1.ServerAddressByClientCIDR")))),
        )
        ⊕ none_left);
    dependencies =
        ("k8s.io/apimachinery/pkg/apis/meta/v1.GroupVersionForDiscovery"
          ∷ "k8s.io/apimachinery/pkg/apis/meta/v1.ServerAddressByClientCIDR" ∷ []);
  }

  abbrev pub pkg_apis_meta_v1_api_group_list : OpenApiDefinition R
  pkg_apis_meta_v1_api_group_list = record {
    schema = object (requiring ("groups" ∷ []) (typed object_type "")) (
        ("kind", leaf (typed string_type ""))
        ⊕ ("apiVersion", leaf (typed string_type ""))
        ⊕ (
          "groups",
          array (extended (("x-kubernetes-list-type", text "atomic") ∷ []) (typed array_type "")) (
              leaf (
                defaulted empty_map
                  (referring (lib.ref "k8s.io/apimachinery/pkg/apis/meta/v1.APIGroup")))),
        )
        ⊕ none_left);
    dependencies = ("k8s.io/apimachinery/pkg/apis/meta/v1.APIGroup" ∷ []);
  }

  abbrev pub pkg_apis_meta_v1_api_resource : OpenApiDefinition R
  pkg_apis_meta_v1_api_resource = record {
    schema =
        object
          (requiring ("name" ∷ "singularName" ∷ "namespaced" ∷ "kind" ∷ "verbs" ∷ [])
            (typed object_type ""))
          (("name", leaf (defaulted (text "") (typed string_type "")))
            ⊕ ("singularName", leaf (defaulted (text "") (typed string_type "")))
            ⊕ ("namespaced", leaf (defaulted (bool false) (typed boolean_type "")))
            ⊕ ("group", leaf (typed string_type ""))
            ⊕ ("version", leaf (typed string_type ""))
            ⊕ ("kind", leaf (defaulted (text "") (typed string_type "")))
            ⊕ (
              "verbs",
              array (typed array_type "") (leaf (defaulted (text "") (typed string_type ""))),
            )
            ⊕ (
              "shortNames",
              array
                  (extended (("x-kubernetes-list-type", text "atomic") ∷ []) (typed array_type ""))
                  (leaf (defaulted (text "") (typed string_type ""))),
            )
            ⊕ (
              "categories",
              array
                  (extended (("x-kubernetes-list-type", text "atomic") ∷ []) (typed array_type ""))
                  (leaf (defaulted (text "") (typed string_type ""))),
            )
            ⊕ ("storageVersionHash", leaf (typed string_type ""))
            ⊕ none_left);
    dependencies = [];
  }

  abbrev pub pkg_apis_meta_v1_api_resource_list : OpenApiDefinition R
  pkg_apis_meta_v1_api_resource_list = record {
    schema = object (requiring ("groupVersion" ∷ "resources" ∷ []) (typed object_type "")) (
        ("kind", leaf (typed string_type ""))
        ⊕ ("apiVersion", leaf (typed string_type ""))
        ⊕ ("groupVersion", leaf (defaulted (text "") (typed string_type "")))
        ⊕ (
          "resources",
          array (extended (("x-kubernetes-list-type", text "atomic") ∷ []) (typed array_type "")) (
              leaf (
                defaulted empty_map
                  (referring (lib.ref "k8s.io/apimachinery/pkg/apis/meta/v1.APIResource")))),
        )
        ⊕ none_left);
    dependencies = ("k8s.io/apimachinery/pkg/apis/meta/v1.APIResource" ∷ []);
  }

  abbrev pub pkg_apis_meta_v1_api_versions : OpenApiDefinition R
  pkg_apis_meta_v1_api_versions = record {
    schema =
        object (requiring ("versions" ∷ "serverAddressByClientCIDRs" ∷ []) (typed object_type "")) (
          ("kind", leaf (typed string_type ""))
          ⊕ ("apiVersion", leaf (typed string_type ""))
          ⊕ (
            "versions",
            array (extended (("x-kubernetes-list-type", text "atomic") ∷ []) (typed array_type ""))
                (leaf (defaulted (text "") (typed string_type ""))),
          )
          ⊕ (
            "serverAddressByClientCIDRs",
            array (extended (("x-kubernetes-list-type", text "atomic") ∷ []) (typed array_type ""))
                (leaf (
                  defaulted empty_map (
                    referring
                      (lib.ref "k8s.io/apimachinery/pkg/apis/meta/v1.ServerAddressByClientCIDR")))),
          )
          ⊕ none_left);
    dependencies = ("k8s.io/apimachinery/pkg/apis/meta/v1.ServerAddressByClientCIDR" ∷ []);
  }

  abbrev pub pkg_apis_meta_v1_group_kind : OpenApiDefinition R
  pkg_apis_meta_v1_group_kind = record {
    schema = object (requiring ("group" ∷ "kind" ∷ []) (typed object_type "")) (
        ("group", leaf (defaulted (text "") (typed string_type "")))
        ⊕ ("kind", leaf (defaulted (text "") (typed string_type "")))
        ⊕ none_left);
    dependencies = [];
  }

  abbrev pub pkg_apis_meta_v1_group_resource : OpenApiDefinition R
  pkg_apis_meta_v1_group_resource = record {
    schema = object (requiring ("group" ∷ "resource" ∷ []) (typed object_type "")) (
        ("group", leaf (defaulted (text "") (typed string_type "")))
        ⊕ ("resource", leaf (defaulted (text "") (typed string_type "")))
        ⊕ none_left);
    dependencies = [];
  }

  abbrev pub pkg_apis_meta_v1_group_version : OpenApiDefinition R
  pkg_apis_meta_v1_group_version = record {
    schema = object (requiring ("group" ∷ "version" ∷ []) (typed object_type "")) (
        ("group", leaf (defaulted (text "") (typed string_type "")))
        ⊕ ("version", leaf (defaulted (text "") (typed string_type "")))
        ⊕ none_left);
    dependencies = [];
  }

  abbrev pub pkg_apis_meta_v1_group_version_for_discovery : OpenApiDefinition R
  pkg_apis_meta_v1_group_version_for_discovery = record {
    schema = object (requiring ("groupVersion" ∷ "version" ∷ []) (typed object_type "")) (
        ("groupVersion", leaf (defaulted (text "") (typed string_type "")))
        ⊕ ("version", leaf (defaulted (text "") (typed string_type "")))
        ⊕ none_left);
    dependencies = [];
  }

  abbrev pub pkg_apis_meta_v1_group_version_kind : OpenApiDefinition R
  pkg_apis_meta_v1_group_version_kind = record {
    schema = object (requiring ("group" ∷ "version" ∷ "kind" ∷ []) (typed object_type "")) (
        ("group", leaf (defaulted (text "") (typed string_type "")))
        ⊕ ("version", leaf (defaulted (text "") (typed string_type "")))
        ⊕ ("kind", leaf (defaulted (text "") (typed string_type "")))
        ⊕ none_left);
    dependencies = [];
  }

  abbrev pub pkg_apis_meta_v1_group_version_resource : OpenApiDefinition R
  pkg_apis_meta_v1_group_version_resource = record {
    schema = object (requiring ("group" ∷ "version" ∷ "resource" ∷ []) (typed object_type "")) (
        ("group", leaf (defaulted (text "") (typed string_type "")))
        ⊕ ("version", leaf (defaulted (text "") (typed string_type "")))
        ⊕ ("resource", leaf (defaulted (text "") (typed string_type "")))
        ⊕ none_left);
    dependencies = [];
  }

  abbrev pub pkg_apis_meta_v1_root_paths : OpenApiDefinition R
  pkg_apis_meta_v1_root_paths = record {
    schema = object (requiring ("paths" ∷ []) (typed object_type "")) (
        (
          "paths",
          array (extended (("x-kubernetes-list-type", text "atomic") ∷ []) (typed array_type ""))
              (leaf (defaulted (text "") (typed string_type ""))),
        )
        ⊕ none_left);
    dependencies = [];
  }

  abbrev pub pkg_apis_meta_v1_server_address_by_client_cidr : OpenApiDefinition R
  pkg_apis_meta_v1_server_address_by_client_cidr = record {
    schema = object (requiring ("clientCIDR" ∷ "serverAddress" ∷ []) (typed object_type "")) (
        ("clientCIDR", leaf (defaulted (text "") (typed string_type "")))
        ⊕ ("serverAddress", leaf (defaulted (text "") (typed string_type "")))
        ⊕ none_left);
    dependencies = [];
  }
