-- ===== src/Greeting/V1/Conversion/Lists.antt =====
-- A list of Foos from the internal version to v1 and back, its items' annotations being references
-- into one heap.
use cloud_native_tour.Common.{
  ◌≤◌, ◌≡◌, ◌≢◌, refl, ap, ◌∙◌, Text, List, [], ◌∷◌, map, none, some, length, arith,
}
use mathlib.Core.Option
use cloud_native_tour.Greeting.Heap.{Heap, Ref, IsLive, AreApart, map_get}
use cloud_native_tour.Greeting.Heap.Laws.{
  address, length-le-assigned, map_get-assigned_ne, address-lt-assigned,
}
use cloud_native_tour.Greeting.ObjectMeta.{ObjectMetaFields}
use cloud_native_tour.Greeting.Internal as Internal
use cloud_native_tour.Greeting.V1.Types.{Foo, FooList}
use cloud_native_tour.Greeting.V1.Conversion.{
  annotation_image, zero_v1, zero_internal, convert_items_to_v1, convert_items_to_greeting,
  convert_greeting_foo_list_to_v1, convert_v1_foo_list_to_greeting,
}
use cloud_native_tour.Greeting.V1.Conversion.Laws.{
  target, v1_of, heap_after, convert_greeting_foo_to_v1_lem, convert_v1_foo_to_greeting-v1_of,
  image_kept,
}

apart-address :
    (h : Heap) (r s : Ref) → IsLive h r → IsLive h s → AreApart s r → s ≢ some (address r h)
apart-address h r none l m d = ground arith
apart-address h none (some a) l m d = ground arith
apart-address h (some b) (some a) l m d = ground arith

IsLive-le : (h k : Heap) (r : Ref) → length h ≤ length k → IsLive h r → IsLive k r
IsLive-le h k none p l = l
IsLive-le h k (some a) p l = omega arith

fresh-apart : (h : Heap) (r s : Ref) → IsLive h s → AreApart r s → AreApart (some (address r h)) s
fresh-apart h r none l d = tt
fresh-apart h none (some b) l d = ground arith
fresh-apart h (some a) (some b) l d = d

module _ {T O : Type 0} (fields : ObjectMetaFields O) where
  open fields use {annotations}

  -- The items' annotations are nil or made, and no two items share theirs.
  abbrev pub AreLive : List (Internal.Foo T O) → Heap → Type 0
  AreLive [] h = Unit {0}
  AreLive (x ∷ xs) h = IsLive h (annotations x.object_meta) × AreLive xs h

  abbrev pub AllApart : Ref → List (Internal.Foo T O) → Type 0
  AllApart r [] = Unit {0}
  AllApart r (x ∷ xs) = AreApart r (annotations x.object_meta) × AllApart r xs

  abbrev pub ArePairwiseApart : List (Internal.Foo T O) → Type 0
  ArePairwiseApart [] = Unit {0}
  ArePairwiseApart (x ∷ xs) = AllApart (annotations x.object_meta) xs × ArePairwiseApart xs

  AreLive-le :
      (h k : Heap) (xs : List (Internal.Foo T O))
      → length h ≤ length k
      → AreLive xs h
      → AreLive xs k
  AreLive-le h k [] p l = tt
  AreLive-le h k (x ∷ xs) p (l, ls) =
      (IsLive-le h k (annotations x.object_meta) p l, AreLive-le h k xs p ls)

  target-apart :
      (x : Internal.Foo T O) (h : Heap) (xs : List (Internal.Foo T O))
      → AreLive xs h
      → AllApart (annotations x.object_meta) xs
      → AllApart (target fields x h) xs
  target-apart x h [] ls d = tt
  target-apart x h (y ∷ ys) (l, ls) (d, ds) = (
    fresh-apart h (annotations x.object_meta) (annotations y.object_meta) l d,
    target-apart x h ys ls ds,
  )

  module _ (no_type_meta : T) where
    unfoldable v1_items : List (Internal.Foo T O) → Heap → List (Foo T O)
    v1_items [] h = []
    v1_items (x ∷ xs) h =
        v1_of fields x (zero_v1 fields no_type_meta) h ∷ v1_items xs (heap_after fields x h)

    unfoldable items_heap : List (Internal.Foo T O) → Heap → Heap
    items_heap [] h = h
    items_heap (x ∷ xs) h = items_heap xs (heap_after fields x h)

    convert_items_to_v1_lem :
        (xs : List (Internal.Foo T O)) (h : Heap)
        → convert_items_to_v1 fields no_type_meta xs h ≡ some (v1_items xs h, items_heap xs h)
    unfolding convert_items_to_v1 v1_items items_heap Option.bind
    convert_items_to_v1_lem [] h = refl
    convert_items_to_v1_lem (x ∷ xs) h =
        rw (convert_greeting_foo_to_v1_lem fields x (zero_v1 fields no_type_meta) h)
          (rw (convert_items_to_v1_lem xs (heap_after fields x h)))

    heap_after-le : (x : Internal.Foo T O) (h : Heap) → length h ≤ length (heap_after fields x h)
    heap_after-le x h =
        length-le-assigned h (annotations x.object_meta) annotation_image x.spec.image

    -- A map that no item refers to is not written.
    map_get-items_heap :
        (xs : List (Internal.Foo T O)) (h : Heap) (s : Ref) (j : Text)
        → AreLive xs h
        → IsLive h s
        → AllApart s xs
        → map_get (items_heap xs h) s j ≡ map_get h s j
    unfolding items_heap
    map_get-items_heap [] h s j ls m d = refl
    map_get-items_heap (x ∷ xs) h s j (l, ls) m (d, ds) =
        let k = heap_after fields x h in
        map_get-items_heap xs k s j (AreLive-le h k xs (heap_after-le x h) ls)
          (IsLive-le h k s (heap_after-le x h) m) ds
        ∙ map_get-assigned_ne h (annotations x.object_meta) s annotation_image x.spec.image j l m
            (apart-address h (annotations x.object_meta) s l m d)

    specs-items :
        (xs : List (Internal.Foo T O)) (h : Heap)
        → AreLive xs h
        → ArePairwiseApart xs
        → map
            (λ (x : Internal.Foo T O). x.spec)
            (convert_items_to_greeting fields no_type_meta (v1_items xs h) (items_heap xs h))
          ≡ map (λ (x : Internal.Foo T O). x.spec) xs
    unfolding v1_items items_heap convert_items_to_greeting
    specs-items [] h ls d = refl
    specs-items (x ∷ xs) h (l, ls) (d, ds) =
        let k = heap_after fields x h in
        let ls' = AreLive-le h k xs (heap_after-le x h) ls in
        let kept =
          map_get-items_heap xs k (target fields x h) annotation_image ls'
            (address-lt-assigned h (annotations x.object_meta) annotation_image x.spec.image l)
            (target-apart x h xs ls d)
          ∙ image_kept fields x h l in
        let rest =
          convert_items_to_greeting fields no_type_meta (v1_items xs k) (items_heap xs k) in
        ap (λ (y : Internal.Foo T O). y.spec ∷ map (λ (z : Internal.Foo T O). z.spec) rest)
          (convert_v1_foo_to_greeting-v1_of fields x (zero_v1 fields no_type_meta)
            (zero_internal fields no_type_meta) h (items_heap xs k) kept)
        ∙ ap (λ ys. x.spec ∷ ys) (specs-items xs k ls' ds)

    -- Where a FooList's items are not nil, their annotations are nil or maps that have been made, and
    -- no two items have the same map for annotations: converting the list to v1 does not panic and
    -- keeps the list's metadata, and converting the result to the internal version gives the specs of
    -- the items again, in order.
    pub convert_v1_list-convert_greeting_list :
        {L : Type 0}
        → (source back : Internal.FooList T O L) (out : FooList T O L) (h : Heap)
          (xs : List (Internal.Foo T O))
        → source.items ≡ some xs
        → AreLive xs h
        → ArePairwiseApart xs
        → (p : FooList T O L × Heap) × (convert_greeting_foo_list_to_v1 fields no_type_meta source
              out h
            ≡ some p)
          × (p.0.list_meta ≡ source.list_meta)
          × (Option.map
                (map (λ (x : Internal.Foo T O). x.spec))
                (convert_v1_foo_list_to_greeting fields no_type_meta p.0 back p.1).items
              ≡ some (map (λ (x : Internal.Foo T O). x.spec) xs))
    unfolding convert_greeting_foo_list_to_v1 convert_v1_foo_list_to_greeting
    convert_v1_list-convert_greeting_list source back out h xs e ls ds = (
      (record out { list_meta = source.list_meta; items = some (v1_items xs h) }, items_heap xs h),
      rw e (rw (convert_items_to_v1_lem xs h)),
      refl,
      ap some (specs-items xs h ls ds),
    )
