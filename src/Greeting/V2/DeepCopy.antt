-- ===== src/Greeting/V2/DeepCopy.antt =====
-- crd-getting-started/pkg/apis/greeting/v2/zz_generated.deepcopy.go. `deep_copy_into` gives what `out` holds
-- afterwards; `*out = *in` is the record that it begins with. ObjectMeta and ListMeta have copiers of
-- their own in apimachinery.
pub mod Laws
use cloud_native_tour.Memory.{Pointer, Slice, Alloc, pure, ◌>>=◌, copy_pointer, copy_slice}
use cloud_native_tour.Memory.Copy.{Memory, Copier}
use cloud_native_tour.Greeting.V2.Types.{
  FooConfig, FooSpec, FooCondition, FooStatusOf, FooOf, FooListOf,
}

unfoldable pub deep_copy_into_condition : FooCondition → Alloc FooCondition
deep_copy_into_condition x = pure x

unfoldable pub deep_copy_condition : Pointer FooCondition → Alloc (Pointer FooCondition)
deep_copy_condition p = copy_pointer deep_copy_into_condition p

unfoldable pub deep_copy_into_config : FooConfig → Alloc FooConfig
deep_copy_into_config x = pure x

unfoldable pub deep_copy_config : Pointer FooConfig → Alloc (Pointer FooConfig)
deep_copy_config p = copy_pointer deep_copy_into_config p

unfoldable pub deep_copy_into_spec : FooSpec → Alloc FooSpec
deep_copy_into_spec x = pure (record x { config = x.config })

unfoldable pub deep_copy_spec : Pointer FooSpec → Alloc (Pointer FooSpec)
deep_copy_spec p = copy_pointer deep_copy_into_spec p

-- The conditions are copied as they stand.
unfoldable pub deep_copy_into_status : FooStatusOf Slice → Alloc (FooStatusOf Slice)
deep_copy_into_status x = do c ← copy_pointer pure x.conditions; pure (record x { conditions = c })

unfoldable pub deep_copy_status : Pointer (FooStatusOf Slice) → Alloc (Pointer (FooStatusOf Slice))
deep_copy_status p = copy_pointer deep_copy_into_status p

module _ {T O : Type 0} {object : Memory O} (object_copier : Copier object) where
  unfoldable pub deep_copy_into_foo : FooOf Slice T O → Alloc (FooOf Slice T O)
  deep_copy_into_foo x = do
    o ← object_copier.copy x.object_meta
    s ← deep_copy_into_status x.status
    pure (record x { type_meta = x.type_meta; object_meta = o; spec = x.spec; status = s })

  unfoldable pub deep_copy_foo : Pointer (FooOf Slice T O) → Alloc (Pointer (FooOf Slice T O))
  deep_copy_foo p = copy_pointer deep_copy_into_foo p

  -- A nil pointer gives a nil object.
  unfoldable pub deep_copy_object_foo :
      Pointer (FooOf Slice T O) → Alloc (Pointer (FooOf Slice T O))
  deep_copy_object_foo p = deep_copy_foo p

  module _ {L : Type 0} {list : Memory L} (list_copier : Copier list) where
    unfoldable pub deep_copy_into_list : FooListOf Slice T O L → Alloc (FooListOf Slice T O L)
    deep_copy_into_list x = do
      l ← list_copier.copy x.list_meta
      xs ← copy_slice deep_copy_into_foo x.items
      pure (record x { type_meta = x.type_meta; list_meta = l; items = xs })

    unfoldable pub deep_copy_list :
        Pointer (FooListOf Slice T O L) → Alloc (Pointer (FooListOf Slice T O L))
    deep_copy_list p = copy_pointer deep_copy_into_list p

    unfoldable pub deep_copy_object_list :
        Pointer (FooListOf Slice T O L) → Alloc (Pointer (FooListOf Slice T O L))
    deep_copy_object_list p = deep_copy_list p
