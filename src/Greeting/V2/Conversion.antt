-- ===== src/Greeting/V2/Conversion.antt =====
-- crd-getting-started/pkg/apis/greeting/v2/zz_generated.conversion.go: between v2 and the internal
-- version. Each function takes the object that `out` points to and returns it changed; the `error` that
-- they return is always nil. The types have the same fields in the same order, and where the code casts a
-- slice through unsafe.Pointer, `cast_` reads every field of every element as that of the other type.
pub mod Laws
use cloud_native_tour.Common.{List, map}
use mathlib.Core.Option
use cloud_native_tour.Greeting.Internal as Internal
use cloud_native_tour.Greeting.V2.Types.{FooConfig, FooSpec, FooCondition, FooStatus, Foo, FooList}

unfoldable pub convert_foo_condition_to_greeting :
    FooCondition → Internal.FooCondition → Internal.FooCondition
convert_foo_condition_to_greeting source out = record out {
  condition_type = source.condition_type;
  status = source.status;
}

unfoldable pub convert_foo_condition_to_v2 : Internal.FooCondition → FooCondition → FooCondition
convert_foo_condition_to_v2 source out = record out {
  condition_type = source.condition_type;
  status = source.status;
}

unfoldable pub convert_foo_config_to_greeting : FooConfig → Internal.FooConfig → Internal.FooConfig
convert_foo_config_to_greeting source out = record out {
  message = source.message;
  description = source.description;
}

unfoldable pub convert_foo_config_to_v2 : Internal.FooConfig → FooConfig → FooConfig
convert_foo_config_to_v2 source out = record out {
  message = source.message;
  description = source.description;
}

unfoldable pub convert_foo_spec_to_greeting : FooSpec → Internal.FooSpec → Internal.FooSpec
unfolding convert_foo_config_to_greeting
convert_foo_spec_to_greeting source out = record out {
  image = source.image;
  config = convert_foo_config_to_greeting source.config out.config;
}

unfoldable pub convert_foo_spec_to_v2 : Internal.FooSpec → FooSpec → FooSpec
unfolding convert_foo_config_to_v2
convert_foo_spec_to_v2 source out = record out {
  image = source.image;
  config = convert_foo_config_to_v2 source.config out.config;
}

unfoldable pub cast_condition_to_greeting : FooCondition → Internal.FooCondition
cast_condition_to_greeting c = record { condition_type = c.condition_type; status = c.status }

unfoldable pub cast_condition_to_v2 : Internal.FooCondition → FooCondition
cast_condition_to_v2 c = record { condition_type = c.condition_type; status = c.status }

unfoldable pub convert_foo_status_to_greeting : FooStatus → Internal.FooStatus → Internal.FooStatus
unfolding cast_condition_to_greeting
convert_foo_status_to_greeting source out = record out {
  phase = source.phase;
  conditions = Option.map (map cast_condition_to_greeting) source.conditions;
}

unfoldable pub convert_foo_status_to_v2 : Internal.FooStatus → FooStatus → FooStatus
unfolding cast_condition_to_v2
convert_foo_status_to_v2 source out = record out {
  phase = source.phase;
  conditions = Option.map (map cast_condition_to_v2) source.conditions;
}

module _ {T O : Type 0} where
  -- TypeMeta is not copied.
  unfoldable pub convert_v2_foo_to_greeting : Foo T O → Internal.Foo T O → Internal.Foo T O
  unfolding convert_foo_spec_to_greeting convert_foo_status_to_greeting
  convert_v2_foo_to_greeting source out = record out {
    object_meta = source.object_meta;
    spec = convert_foo_spec_to_greeting source.spec out.spec;
    status = convert_foo_status_to_greeting source.status out.status;
  }

  unfoldable pub convert_greeting_foo_to_v2 : Internal.Foo T O → Foo T O → Foo T O
  unfolding convert_foo_spec_to_v2 convert_foo_status_to_v2
  convert_greeting_foo_to_v2 source out = record out {
    object_meta = source.object_meta;
    spec = convert_foo_spec_to_v2 source.spec out.spec;
    status = convert_foo_status_to_v2 source.status out.status;
  }

  -- A cast keeps TypeMeta too.
  unfoldable pub cast_foo_to_greeting : Foo T O → Internal.Foo T O
  unfolding cast_condition_to_greeting
  cast_foo_to_greeting x = record {
    type_meta = x.type_meta;
    object_meta = x.object_meta;
    spec = record {
      image = x.spec.image;
      config = record { message = x.spec.config.message; description = x.spec.config.description };
    };
    status = record {
      phase = x.status.phase;
      conditions = Option.map (map cast_condition_to_greeting) x.status.conditions;
    };
  }

  unfoldable pub cast_foo_to_v2 : Internal.Foo T O → Foo T O
  unfolding cast_condition_to_v2
  cast_foo_to_v2 x = record {
    type_meta = x.type_meta;
    object_meta = x.object_meta;
    spec = record {
      image = x.spec.image;
      config = record { message = x.spec.config.message; description = x.spec.config.description };
    };
    status = record {
      phase = x.status.phase;
      conditions = Option.map (map cast_condition_to_v2) x.status.conditions;
    };
  }

  module _ {L : Type 0} where
    unfoldable pub convert_v2_foo_list_to_greeting :
        FooList T O L → Internal.FooList T O L → Internal.FooList T O L
    unfolding cast_foo_to_greeting
    convert_v2_foo_list_to_greeting source out = record out {
      list_meta = source.list_meta;
      items = Option.map (map cast_foo_to_greeting) source.items;
    }

    unfoldable pub convert_greeting_foo_list_to_v2 :
        Internal.FooList T O L → FooList T O L → FooList T O L
    unfolding cast_foo_to_v2
    convert_greeting_foo_list_to_v2 source out = record out {
      list_meta = source.list_meta;
      items = Option.map (map cast_foo_to_v2) source.items;
    }
