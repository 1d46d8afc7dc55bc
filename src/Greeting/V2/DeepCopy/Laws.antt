-- ===== src/Greeting/V2/DeepCopy/Laws.antt =====
-- Which memory the types refer to, and that the generated copies are deep.
use cloud_native_tour.Common.{ℕ, ◌++◌}
use cloud_native_tour.Memory.{Pointer, Slice, copy_slice}
use cloud_native_tour.Memory.Copy.{
  Memory, plain_memory, pointer_memory, slice_memory, IsFresh-then, IsDeepCopy, IsDeepCopy-IsFresh,
  Copier, plain, pointer_copier, list_copier,
}
use cloud_native_tour.Greeting.V2.Types.{FooStatusOf, FooOf, FooListOf}
use cloud_native_tour.Greeting.V2.DeepCopy.{
  deep_copy_into_status, deep_copy_into_foo, deep_copy_into_list, deep_copy_list,
}

abbrev pub status_memory : Memory (FooStatusOf Slice)
status_memory = record {
  addresses = λ x. (pointer_memory plain_memory).addresses x.conditions;
  forget = λ x. record x { conditions = (pointer_memory plain_memory).forget x.conditions };
}

abbrev pub foo_memory : {T O : Type 0} → Memory O → Memory (FooOf Slice T O)
foo_memory object = record {
  addresses = λ x. object.addresses x.object_meta ++ status_memory.addresses x.status;
  forget = λ x. record x {
    object_meta = object.forget x.object_meta;
    status = status_memory.forget x.status;
  };
}

abbrev pub list_memory : {T O L : Type 0} → Memory O → Memory L → Memory (FooListOf Slice T O L)
list_memory object list = record {
  addresses =
      λ x. list.addresses x.list_meta ++ (slice_memory (foo_memory object)).addresses x.items;
  forget = λ x. record x {
    list_meta = list.forget x.list_meta;
    items = (slice_memory (foo_memory object)).forget x.items;
  };
}

status_deep :
    (x : FooStatusOf Slice) (n : ℕ) → IsDeepCopy status_memory x n (deep_copy_into_status x n)
unfolding deep_copy_into_status
status_deep x n =
    let p = (pointer_copier plain).deep x.conditions n in
    record { grows = p.grows; fresh = p.fresh; same = λ i. record x { conditions = p.same i } }

module _ {T O : Type 0} {object : Memory O} (object_copier : Copier object) where
  pub foo_deep :
      (x : FooOf Slice T O) (n : ℕ)
      → IsDeepCopy (foo_memory object) x n (deep_copy_into_foo object_copier x n)
  unfolding deep_copy_into_foo
  foo_deep x n =
      let m = (object_copier.copy x.object_meta n).1 in
      let p = object_copier.deep x.object_meta n in
      let q = status_deep x.status m in
      let f = IsFresh-then n m _ _ _ (IsDeepCopy-IsFresh p) (IsDeepCopy-IsFresh q) in
      record {
        grows = f.0;
        fresh = f.1;
        same = λ i. record x { object_meta = p.same i; status = q.same i };
      }

  abbrev pub foo_copier : Copier (foo_memory {T = T} object)
  foo_copier = record { copy = deep_copy_into_foo object_copier; deep = foo_deep }

  module _ {L : Type 0} {list : Memory L} (list_meta_copier : Copier list) where
    pub foo_list_deep :
        (x : FooListOf Slice T O L) (n : ℕ)
        → IsDeepCopy
            (list_memory object list)
            x
            n
            (deep_copy_into_list object_copier list_meta_copier x n)
    unfolding deep_copy_into_list copy_slice
    foo_list_deep x n =
        let m = (list_meta_copier.copy x.list_meta n).1 in
        let p = list_meta_copier.deep x.list_meta n in
        let q = (pointer_copier (list_copier foo_copier)).deep x.items m in
        let f = IsFresh-then n m _ _ _ (IsDeepCopy-IsFresh p) (IsDeepCopy-IsFresh q) in
        record {
          grows = f.0;
          fresh = f.1;
          same = λ i. record x { list_meta = p.same i; items = q.same i };
        }

    abbrev pub foo_list_copier : Copier (list_memory {T = T} object list)
    foo_list_copier = record {
      copy = deep_copy_into_list object_copier list_meta_copier;
      deep = foo_list_deep;
    }

    pub v2_foo_list_copy_deep :
        (p : Pointer (FooListOf Slice T O L)) (n : ℕ)
        → IsDeepCopy
            (pointer_memory (list_memory object list))
            p
            n
            (deep_copy_list object_copier list_meta_copier p n)
    unfolding deep_copy_list
    v2_foo_list_copy_deep p n = (pointer_copier foo_list_copier).deep p n
