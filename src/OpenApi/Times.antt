-- ===== src/OpenApi/Times.antt =====
-- The schemas of times, from
-- kube-aggregator/pkg/generated/openapi/zz_generated.openapi.go.
use cloud_native_tour.Common.{[], ◌∷◌}
use cloud_native_tour.OpenApi.Schema.{
  number, typed, defaulted, requiring, none_left, ◌⊕◌, leaf, object_type, integer_type, object,
  OpenApiDefinition, Library,
}

module _ {R : Type 0} (lib : Library R) where
  abbrev pub pkg_apis_meta_v1_duration : OpenApiDefinition R
  pkg_apis_meta_v1_duration = record {
    schema = leaf (typed (lib.schema_type "Duration") (lib.schema_format "Duration"));
    dependencies = [];
  }

  abbrev pub pkg_apis_meta_v1_micro_time : OpenApiDefinition R
  pkg_apis_meta_v1_micro_time = record {
    schema = leaf (typed (lib.schema_type "MicroTime") (lib.schema_format "MicroTime"));
    dependencies = [];
  }

  abbrev pub pkg_apis_meta_v1_time : OpenApiDefinition R
  pkg_apis_meta_v1_time = record {
    schema = leaf (typed (lib.schema_type "Time") (lib.schema_format "Time"));
    dependencies = [];
  }

  abbrev pub pkg_apis_meta_v1_timestamp : OpenApiDefinition R
  pkg_apis_meta_v1_timestamp = record {
    schema = object (requiring ("seconds" ∷ "nanos" ∷ []) (typed object_type "")) (
        ("seconds", leaf (defaulted (number 0) (typed integer_type "int64")))
        ⊕ ("nanos", leaf (defaulted (number 0) (typed integer_type "int32")))
        ⊕ none_left);
    dependencies = [];
  }
