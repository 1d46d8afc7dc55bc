-- ===== src/OpenApi/Greeting.antt =====
-- The schemas of greeting.foen.ye, from
-- crd-getting-started/pkg/generated/openapi/zz_generated.openapi.go.
use cloud_native_tour.Common.{[], ◌∷◌}
use cloud_native_tour.OpenApi.Schema.{
  text, empty_map, typed, referring, defaulted, requiring, extended, none_left, ◌⊕◌, leaf,
  string_type, object_type, array_type, object, array, OpenApiDefinition, Library,
}

module _ {R : Type 0} (lib : Library R) where
  abbrev pub pkg_apis_greeting_v1_foo : OpenApiDefinition R
  pkg_apis_greeting_v1_foo = record {
    schema = object (requiring ("spec" ∷ []) (typed object_type "")) (
        ("kind", leaf (typed string_type ""))
        ⊕ ("apiVersion", leaf (typed string_type ""))
        ⊕ (
          "metadata",
          leaf (
              defaulted empty_map
                (referring (lib.ref "k8s.io/apimachinery/pkg/apis/meta/v1.ObjectMeta"))),
        )
        ⊕ (
          "spec",
          leaf (
              defaulted empty_map (
                referring (
                  lib.ref
                    "github.com/foenye/cloud-native-tour/crd-getting-started/pkg/apis/greeting/v1.FooSpec"))),
        )
        ⊕ none_left);
    dependencies =
        ("github.com/foenye/cloud-native-tour/crd-getting-started/pkg/apis/greeting/v1.FooSpec"
          ∷ "k8s.io/apimachinery/pkg/apis/meta/v1.ObjectMeta" ∷ []);
  }

  abbrev pub pkg_apis_greeting_v1_foo_list : OpenApiDefinition R
  pkg_apis_greeting_v1_foo_list = record {
    schema = object (requiring ("items" ∷ []) (typed object_type "")) (
        ("kind", leaf (typed string_type ""))
        ⊕ ("apiVersion", leaf (typed string_type ""))
        ⊕ (
          "metadata",
          leaf (
              defaulted empty_map
                (referring (lib.ref "k8s.io/apimachinery/pkg/apis/meta/v1.ListMeta"))),
        )
        ⊕ (
          "items",
          array (typed array_type "") (
              leaf (
                defaulted empty_map (
                  referring (
                    lib.ref
                      "github.com/foenye/cloud-native-tour/crd-getting-started/pkg/apis/greeting/v1.Foo")))),
        )
        ⊕ none_left);
    dependencies =
        ("github.com/foenye/cloud-native-tour/crd-getting-started/pkg/apis/greeting/v1.Foo"
          ∷ "k8s.io/apimachinery/pkg/apis/meta/v1.ListMeta" ∷ []);
  }

  abbrev pub pkg_apis_greeting_v1_foo_spec : OpenApiDefinition R
  pkg_apis_greeting_v1_foo_spec = record {
    schema = object (requiring ("message" ∷ []) (typed object_type "")) (
        ("message", leaf (defaulted (text "") (typed string_type "")))
        ⊕ ("description", leaf (defaulted (text "") (typed string_type "")))
        ⊕ none_left);
    dependencies = [];
  }

  abbrev pub pkg_apis_greeting_v2_foo : OpenApiDefinition R
  pkg_apis_greeting_v2_foo = record {
    schema = object (requiring ("spec" ∷ []) (typed object_type "")) (
        ("kind", leaf (typed string_type ""))
        ⊕ ("apiVersion", leaf (typed string_type ""))
        ⊕ (
          "metadata",
          leaf (
              defaulted empty_map
                (referring (lib.ref "k8s.io/apimachinery/pkg/apis/meta/v1.ObjectMeta"))),
        )
        ⊕ (
          "spec",
          leaf (
              defaulted empty_map (
                referring (
                  lib.ref
                    "github.com/foenye/cloud-native-tour/crd-getting-started/pkg/apis/greeting/v2.FooSpec"))),
        )
        ⊕ (
          "status",
          leaf (
              defaulted empty_map (
                referring (
                  lib.ref
                    "github.com/foenye/cloud-native-tour/crd-getting-started/pkg/apis/greeting/v2.FooStatus"))),
        )
        ⊕ none_left);
    dependencies =
        ("github.com/foenye/cloud-native-tour/crd-getting-started/pkg/apis/greeting/v2.FooSpec"
          ∷ "github.com/foenye/cloud-native-tour/crd-getting-started/pkg/apis/greeting/v2.FooStatus"
          ∷ "k8s.io/apimachinery/pkg/apis/meta/v1.ObjectMeta" ∷ []);
  }

  abbrev pub pkg_apis_greeting_v2_foo_condition : OpenApiDefinition R
  pkg_apis_greeting_v2_foo_condition = record {
    schema = object (requiring ("type" ∷ "status" ∷ []) (typed object_type "")) (
        ("type", leaf (defaulted (text "") (typed string_type "")))
        ⊕ ("status", leaf (defaulted (text "") (typed string_type "")))
        ⊕ none_left);
    dependencies = [];
  }

  abbrev pub pkg_apis_greeting_v2_foo_config : OpenApiDefinition R
  pkg_apis_greeting_v2_foo_config = record {
    schema = object (requiring ("message" ∷ []) (typed object_type "")) (
        ("message", leaf (defaulted (text "") (typed string_type "")))
        ⊕ ("description", leaf (typed string_type ""))
        ⊕ none_left);
    dependencies = [];
  }

  abbrev pub pkg_apis_greeting_v2_foo_list : OpenApiDefinition R
  pkg_apis_greeting_v2_foo_list = record {
    schema = object (requiring ("items" ∷ []) (typed object_type "")) (
        ("kind", leaf (typed string_type ""))
        ⊕ ("apiVersion", leaf (typed string_type ""))
        ⊕ (
          "metadata",
          leaf (
              defaulted empty_map
                (referring (lib.ref "k8s.io/apimachinery/pkg/apis/meta/v1.ListMeta"))),
        )
        ⊕ (
          "items",
          array (typed array_type "") (
              leaf (
                defaulted empty_map (
                  referring (
                    lib.ref
                      "github.com/foenye/cloud-native-tour/crd-getting-started/pkg/apis/greeting/v2.Foo")))),
        )
        ⊕ none_left);
    dependencies =
        ("github.com/foenye/cloud-native-tour/crd-getting-started/pkg/apis/greeting/v2.Foo"
          ∷ "k8s.io/apimachinery/pkg/apis/meta/v1.ListMeta" ∷ []);
  }

  abbrev pub pkg_apis_greeting_v2_foo_spec : OpenApiDefinition R
  pkg_apis_greeting_v2_foo_spec = record {
    schema = object (requiring ("image" ∷ "config" ∷ []) (typed object_type "")) (
        ("image", leaf (defaulted (text "") (typed string_type "")))
        ⊕ (
          "config",
          leaf (
              defaulted empty_map (
                referring (
                  lib.ref
                    "github.com/foenye/cloud-native-tour/crd-getting-started/pkg/apis/greeting/v2.FooConfig"))),
        )
        ⊕ none_left);
    dependencies =
        ("github.com/foenye/cloud-native-tour/crd-getting-started/pkg/apis/greeting/v2.FooConfig"
          ∷ []);
  }

  abbrev pub pkg_apis_greeting_v2_foo_status : OpenApiDefinition R
  pkg_apis_greeting_v2_foo_status = record {
    schema = object (typed object_type "") (
        ("phase", leaf (typed string_type ""))
        ⊕ (
          "conditions",
          array
              (extended
                (("x-kubernetes-patch-merge-key", text "type")
                  ∷ ("x-kubernetes-patch-strategy", text "merge")
                  ∷ [])
                (typed array_type ""))
              (leaf (
                defaulted empty_map (
                  referring (
                    lib.ref
                      "github.com/foenye/cloud-native-tour/crd-getting-started/pkg/apis/greeting/v2.FooCondition")))),
        )
        ⊕ none_left);
    dependencies =
        ("github.com/foenye/cloud-native-tour/crd-getting-started/pkg/apis/greeting/v2.FooCondition"
          ∷ []);
  }
