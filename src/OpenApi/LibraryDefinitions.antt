-- ===== src/OpenApi/LibraryDefinitions.antt =====
-- The entries of `GetOpenAPIDefinitions` for the types of k8s.io/apimachinery, which are the same in
-- kube-aggregator/pkg/generated/openapi/zz_generated.openapi.go and in that file of
-- crd-getting-started, as their schemas are.
use cloud_native_tour.Common.{List, [], ◌∷◌}
use Prim.Native.String.{String}
use cloud_native_tour.OpenApi.Schema.{OpenApiDefinition, Library}
use cloud_native_tour.OpenApi.Groups
use cloud_native_tour.OpenApi.Objects
use cloud_native_tour.OpenApi.Options
use cloud_native_tour.OpenApi.Runtime
use cloud_native_tour.OpenApi.Selectors
use cloud_native_tour.OpenApi.Statuses
use cloud_native_tour.OpenApi.Tables
use cloud_native_tour.OpenApi.Times

module _ {R : Type 0} (lib : Library R) where
  abbrev pub library_definitions : List (String × OpenApiDefinition R)
  library_definitions =
      ("k8s.io/apimachinery/pkg/apis/meta/v1.APIGroup", Groups.pkg_apis_meta_v1_api_group lib)
      ∷ (
        "k8s.io/apimachinery/pkg/apis/meta/v1.APIGroupList",
        Groups.pkg_apis_meta_v1_api_group_list lib,
      )
      ∷ (
        "k8s.io/apimachinery/pkg/apis/meta/v1.APIResource",
        Groups.pkg_apis_meta_v1_api_resource lib,
      )
      ∷ (
        "k8s.io/apimachinery/pkg/apis/meta/v1.APIResourceList",
        Groups.pkg_apis_meta_v1_api_resource_list lib,
      )
      ∷ (
        "k8s.io/apimachinery/pkg/apis/meta/v1.APIVersions",
        Groups.pkg_apis_meta_v1_api_versions lib,
      )
      ∷ (
        "k8s.io/apimachinery/pkg/apis/meta/v1.ApplyOptions",
        Options.pkg_apis_meta_v1_apply_options lib,
      )
      ∷ ("k8s.io/apimachinery/pkg/apis/meta/v1.Condition", Statuses.pkg_apis_meta_v1_condition lib)
      ∷ (
        "k8s.io/apimachinery/pkg/apis/meta/v1.CreateOptions",
        Options.pkg_apis_meta_v1_create_options lib,
      )
      ∷ (
        "k8s.io/apimachinery/pkg/apis/meta/v1.DeleteOptions",
        Options.pkg_apis_meta_v1_delete_options lib,
      )
      ∷ ("k8s.io/apimachinery/pkg/apis/meta/v1.Duration", Times.pkg_apis_meta_v1_duration lib)
      ∷ (
        "k8s.io/apimachinery/pkg/apis/meta/v1.FieldSelectorRequirement",
        Selectors.pkg_apis_meta_v1_field_selector_requirement lib,
      )
      ∷ ("k8s.io/apimachinery/pkg/apis/meta/v1.FieldsV1", Selectors.pkg_apis_meta_v1_fields_v1 lib)
      ∷ (
        "k8s.io/apimachinery/pkg/apis/meta/v1.GetOptions",
        Options.pkg_apis_meta_v1_get_options lib,
      )
      ∷ ("k8s.io/apimachinery/pkg/apis/meta/v1.GroupKind", Groups.pkg_apis_meta_v1_group_kind lib)
      ∷ (
        "k8s.io/apimachinery/pkg/apis/meta/v1.GroupResource",
        Groups.pkg_apis_meta_v1_group_resource lib,
      )
      ∷ (
        "k8s.io/apimachinery/pkg/apis/meta/v1.GroupVersion",
        Groups.pkg_apis_meta_v1_group_version lib,
      )
      ∷ (
        "k8s.io/apimachinery/pkg/apis/meta/v1.GroupVersionForDiscovery",
        Groups.pkg_apis_meta_v1_group_version_for_discovery lib,
      )
      ∷ (
        "k8s.io/apimachinery/pkg/apis/meta/v1.GroupVersionKind",
        Groups.pkg_apis_meta_v1_group_version_kind lib,
      )
      ∷ (
        "k8s.io/apimachinery/pkg/apis/meta/v1.GroupVersionResource",
        Groups.pkg_apis_meta_v1_group_version_resource lib,
      )
      ∷ (
        "k8s.io/apimachinery/pkg/apis/meta/v1.InternalEvent",
        Statuses.pkg_apis_meta_v1_internal_event lib,
      )
      ∷ (
        "k8s.io/apimachinery/pkg/apis/meta/v1.LabelSelector",
        Selectors.pkg_apis_meta_v1_label_selector lib,
      )
      ∷ (
        "k8s.io/apimachinery/pkg/apis/meta/v1.LabelSelectorRequirement",
        Selectors.pkg_apis_meta_v1_label_selector_requirement lib,
      )
      ∷ ("k8s.io/apimachinery/pkg/apis/meta/v1.List", Objects.pkg_apis_meta_v1_list lib)
      ∷ ("k8s.io/apimachinery/pkg/apis/meta/v1.ListMeta", Objects.pkg_apis_meta_v1_list_meta lib)
      ∷ (
        "k8s.io/apimachinery/pkg/apis/meta/v1.ListOptions",
        Options.pkg_apis_meta_v1_list_options lib,
      )
      ∷ (
        "k8s.io/apimachinery/pkg/apis/meta/v1.ManagedFieldsEntry",
        Objects.pkg_apis_meta_v1_managed_fields_entry lib,
      )
      ∷ ("k8s.io/apimachinery/pkg/apis/meta/v1.MicroTime", Times.pkg_apis_meta_v1_micro_time lib)
      ∷ (
        "k8s.io/apimachinery/pkg/apis/meta/v1.ObjectMeta",
        Objects.pkg_apis_meta_v1_object_meta lib,
      )
      ∷ (
        "k8s.io/apimachinery/pkg/apis/meta/v1.OwnerReference",
        Objects.pkg_apis_meta_v1_owner_reference lib,
      )
      ∷ (
        "k8s.io/apimachinery/pkg/apis/meta/v1.PartialObjectMetadata",
        Objects.pkg_apis_meta_v1_partial_object_metadata lib,
      )
      ∷ (
        "k8s.io/apimachinery/pkg/apis/meta/v1.PartialObjectMetadataList",
        Objects.pkg_apis_meta_v1_partial_object_metadata_list lib,
      )
      ∷ ("k8s.io/apimachinery/pkg/apis/meta/v1.Patch", Options.pkg_apis_meta_v1_patch lib)
      ∷ (
        "k8s.io/apimachinery/pkg/apis/meta/v1.PatchOptions",
        Options.pkg_apis_meta_v1_patch_options lib,
      )
      ∷ (
        "k8s.io/apimachinery/pkg/apis/meta/v1.Preconditions",
        Options.pkg_apis_meta_v1_preconditions lib,
      )
      ∷ ("k8s.io/apimachinery/pkg/apis/meta/v1.RootPaths", Groups.pkg_apis_meta_v1_root_paths lib)
      ∷ (
        "k8s.io/apimachinery/pkg/apis/meta/v1.ServerAddressByClientCIDR",
        Groups.pkg_apis_meta_v1_server_address_by_client_cidr lib,
      )
      ∷ ("k8s.io/apimachinery/pkg/apis/meta/v1.Status", Statuses.pkg_apis_meta_v1_status lib)
      ∷ (
        "k8s.io/apimachinery/pkg/apis/meta/v1.StatusCause",
        Statuses.pkg_apis_meta_v1_status_cause lib,
      )
      ∷ (
        "k8s.io/apimachinery/pkg/apis/meta/v1.StatusDetails",
        Statuses.pkg_apis_meta_v1_status_details lib,
      )
      ∷ ("k8s.io/apimachinery/pkg/apis/meta/v1.Table", Tables.pkg_apis_meta_v1_table lib)
      ∷ (
        "k8s.io/apimachinery/pkg/apis/meta/v1.TableColumnDefinition",
        Tables.pkg_apis_meta_v1_table_column_definition lib,
      )
      ∷ (
        "k8s.io/apimachinery/pkg/apis/meta/v1.TableOptions",
        Options.pkg_apis_meta_v1_table_options lib,
      )
      ∷ ("k8s.io/apimachinery/pkg/apis/meta/v1.TableRow", Tables.pkg_apis_meta_v1_table_row lib)
      ∷ (
        "k8s.io/apimachinery/pkg/apis/meta/v1.TableRowCondition",
        Tables.pkg_apis_meta_v1_table_row_condition lib,
      )
      ∷ ("k8s.io/apimachinery/pkg/apis/meta/v1.Time", Times.pkg_apis_meta_v1_time lib)
      ∷ ("k8s.io/apimachinery/pkg/apis/meta/v1.Timestamp", Times.pkg_apis_meta_v1_timestamp lib)
      ∷ ("k8s.io/apimachinery/pkg/apis/meta/v1.TypeMeta", Objects.pkg_apis_meta_v1_type_meta lib)
      ∷ (
        "k8s.io/apimachinery/pkg/apis/meta/v1.UpdateOptions",
        Options.pkg_apis_meta_v1_update_options lib,
      )
      ∷ (
        "k8s.io/apimachinery/pkg/apis/meta/v1.WatchEvent",
        Statuses.pkg_apis_meta_v1_watch_event lib,
      )
      ∷ (
        "k8s.io/apimachinery/pkg/runtime.RawExtension",
        Runtime.k8sio_apimachinery_pkg_runtime_raw_extension lib,
      )
      ∷ (
        "k8s.io/apimachinery/pkg/runtime.TypeMeta",
        Runtime.k8sio_apimachinery_pkg_runtime_type_meta lib,
      )
      ∷ (
        "k8s.io/apimachinery/pkg/runtime.Unknown",
        Runtime.k8sio_apimachinery_pkg_runtime_unknown lib,
      )
      ∷ ("k8s.io/apimachinery/pkg/version.Info", Runtime.k8sio_apimachinery_pkg_version_info lib)
      ∷ []
