-- ===== src/Greeting/V1/DeepCopy.antt =====
-- crd-getting-started/pkg/apis/greeting/v1/zz_generated.deepcopy.go. `deep_copy_into` gives what `out` holds
-- afterwards; `*out = *in` is the record that it begins with. ObjectMeta and ListMeta have copiers of
-- their own in apimachinery.
pub mod Laws
use cloud_native_tour.Memory.{Pointer, Slice, Alloc, pure, ◌>>=◌, copy_pointer, copy_slice}
use cloud_native_tour.Memory.Copy.{Memory, Copier}
use cloud_native_tour.Greeting.V1.Types.{FooSpec, Foo, FooListOf}

unfoldable pub deep_copy_into_spec : FooSpec → Alloc FooSpec
deep_copy_into_spec x = pure x

unfoldable pub deep_copy_spec : Pointer FooSpec → Alloc (Pointer FooSpec)
deep_copy_spec p = copy_pointer deep_copy_into_spec p

module _ {T O : Type 0} {object : Memory O} (object_copier : Copier object) where
  unfoldable pub deep_copy_into_foo : Foo T O → Alloc (Foo T O)
  deep_copy_into_foo x = do
    o ← object_copier.copy x.object_meta
    pure (record x { type_meta = x.type_meta; object_meta = o; spec = x.spec })

  unfoldable pub deep_copy_foo : Pointer (Foo T O) → Alloc (Pointer (Foo T O))
  deep_copy_foo p = copy_pointer deep_copy_into_foo p

  -- A nil pointer gives a nil object.
  unfoldable pub deep_copy_object_foo : Pointer (Foo T O) → Alloc (Pointer (Foo T O))
  deep_copy_object_foo p = deep_copy_foo p

  module _ {L : Type 0} {list : Memory L} (list_copier : Copier list) where
    unfoldable pub deep_copy_into_list : FooListOf Slice T O L → Alloc (FooListOf Slice T O L)
    deep_copy_into_list x = do
      l ← list_copier.copy x.list_meta
      xs ← copy_slice deep_copy_into_foo x.items
      pure (record x { type_meta = x.type_meta; list_meta = l; items = xs })

    unfoldable pub deep_copy_list :
        Pointer (FooListOf Slice T O L) → Alloc (Pointer (FooListOf Slice T O L))
    deep_copy_list p = copy_pointer deep_copy_into_list p

    unfoldable pub deep_copy_object_list :
        Pointer (FooListOf Slice T O L) → Alloc (Pointer (FooListOf Slice T O L))
    deep_copy_object_list p = deep_copy_list p
