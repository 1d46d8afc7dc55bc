-- ===== src/Greeting/Internal/Runs.antt =====
-- Tests of the internal version's generated copies. A pointer to a number stands for the ObjectMeta.
use cloud_native_tour.Common.{ℕ, codes, ◌≡◌, refl, [], ◌∷◌, some}
use cloud_native_tour.Memory.{Pointer, Slice, copy_pointer, copy_list, copy_slice, new}
use cloud_native_tour.Memory.Copy.{plain_memory, pointer_memory, IsDeepCopy, plain, pointer_copier}
use cloud_native_tour.Greeting.Internal.{FooOf, FooListOf}
use cloud_native_tour.Greeting.Internal.DeepCopy.{
  deep_copy_into_status, deep_copy_into_foo, deep_copy_into_list, deep_copy_list,
}
use cloud_native_tour.Greeting.Internal.DeepCopy.Laws.{list_memory, internal_foo_list_copy_deep}

abbrev foo : FooOf Slice ℕ (Pointer ℕ)
foo = record {
  type_meta = 1;
  object_meta = some (record { address = 0; content = 7 });
  spec = record {
    image = codes "nginx";
    config = record { message = codes "m"; description = [] };
  };
  status = record {
    phase = codes "Ready";
    conditions = some (record { address = 1; content = [] });
  };
}

abbrev foos : FooListOf Slice ℕ (Pointer ℕ) ℕ
foos = record {
  type_meta = 1;
  list_meta = 2;
  items = some (record { address = 2; content = foo ∷ foo ∷ [] });
}

-- The two items share their memory, and their copies do not.
deep_copy_test :
    (deep_copy_list
      (pointer_copier plain)
      plain
      (some (record { address = 3; content = foos }))
      10).1
    ≡ 16
unfolding deep_copy_list deep_copy_into_list deep_copy_into_foo deep_copy_into_status copy_slice
    copy_list copy_pointer new
deep_copy_test = refl

internal_foo_list_copy_deep_example :
    IsDeepCopy
      (pointer_memory (list_memory (pointer_memory plain_memory) plain_memory))
      (some (record { address = 3; content = foos }))
      10
      (deep_copy_list
        (pointer_copier plain)
        plain
        (some (record { address = 3; content = foos }))
        10)
internal_foo_list_copy_deep_example =
    internal_foo_list_copy_deep (pointer_copier plain) plain
      (some (record { address = 3; content = foos })) 10
