-- ===== src/Greeting/V1/Defaults/Twice.antt =====
-- Defaulting an object that has its defaults.
use cloud_native_tour.Common.{
  ◌≡◌, refl, sym, ◌∙◌, Text, text_eq, some, if◌then◌else◌, Bool, Bool-cases, inl, inr,
}
use cloud_native_tour.Greeting.Heap.{Heap, IsLive, AreApart, map_get}
use cloud_native_tour.Greeting.Heap.Laws.{length-set}
use cloud_native_tour.Greeting.Heap.Writes.{
  first_address-lt_second, second_address-lt, addresses-ne,
}
use cloud_native_tour.Greeting.ObjectMeta.{ObjectMetaFields}
use cloud_native_tour.Greeting.V1.Types.{Foo}
use cloud_native_tour.Greeting.V1.Conversion.{annotation_image}
use cloud_native_tour.Greeting.V1.Defaults.{name_label, default_image, set_defaults_foo}
use cloud_native_tour.Greeting.V1.Defaults.Laws.{
  defaulted, heap_after, labels-defaulted, name-defaulted, annotations-defaulted,
  set_defaults_foo-defaulted, labels_read, annotations_read,
}

-- What is assigned under a test is found again under the same test.
assigned_twice :
    (b : Bool) (v w old : Text) {now before : Text}
    → v ≡ w
    → now ≡ (if b then v else before)
    → before ≡ (if b then w else old)
    → now ≡ before
assigned_twice b v w old e p q = elim (Bool-cases b) [
  | inl t ↦ (rw t at p) ∙ e ∙ sym (rw t at q)
  | inr t ↦ rw t at p
]

module _ {T O : Type 0} (fields : ObjectMetaFields O) where
  open fields use {name, labels, annotations}

  module _ (obj : Foo T O) (h : Heap) (live_l : IsLive h (labels obj.object_meta))
      (live_a : IsLive h (annotations obj.object_meta)) where
    abbrev d : Foo T O
    d = defaulted fields obj h

    abbrev k : Heap
    k = heap_after fields obj h

    IsLive-labels : IsLive k (labels d.object_meta)
    IsLive-labels =
        let l = labels obj.object_meta in
        let a = annotations obj.object_meta in
        rw (labels-defaulted fields obj h)
          (rw (length-set, length-set) (first_address-lt_second h l a live_l live_a))

    IsLive-annotations : IsLive k (annotations d.object_meta)
    IsLive-annotations =
        let l = labels obj.object_meta in
        let a = annotations obj.object_meta in
        rw (annotations-defaulted fields obj h)
          (rw (length-set, length-set) (second_address-lt h l a live_l live_a))

    AreApart-defaulted :
        AreApart (labels obj.object_meta) (annotations obj.object_meta)
        → AreApart (labels d.object_meta) (annotations d.object_meta)
    AreApart-defaulted apart =
        rw (labels-defaulted fields obj h, annotations-defaulted fields obj h)
          (addresses-ne h (labels obj.object_meta) (annotations obj.object_meta) live_l live_a
            apart)

  -- Where the labels and the annotations of a v1 Foo are nil or maps that have been made, and are not
  -- one map: defaulting the Foo does not panic, defaulting the result does not either, and every key
  -- of the labels and of the annotations reads after the second time as after the first.
  pub set_defaults_foo_idempotent :
      (obj : Foo T O) (h : Heap) (j : Text)
      → IsLive h (labels obj.object_meta)
      → IsLive h (annotations obj.object_meta)
      → AreApart (labels obj.object_meta) (annotations obj.object_meta)
      → (p : Foo T O × Heap) × (q : Foo T O × Heap) × (set_defaults_foo fields obj h ≡ some p)
        × (set_defaults_foo fields p.0 p.1 ≡ some q)
        × (map_get q.1 (labels q.0.object_meta) j ≡ map_get p.1 (labels p.0.object_meta) j)
        × (map_get q.1 (annotations q.0.object_meta) j
            ≡ map_get p.1 (annotations p.0.object_meta) j)
  set_defaults_foo_idempotent obj h j live_l live_a apart =
      let x = defaulted fields obj h in
      let m = heap_after fields obj h in
      let live_l' = IsLive-labels obj h live_l live_a in
      let live_a' = IsLive-annotations obj h live_l live_a in
      let apart' = AreApart-defaulted obj h live_l live_a apart in
      (
        (x, m),
        (defaulted fields x m, heap_after fields x m),
        set_defaults_foo-defaulted fields obj h,
        set_defaults_foo-defaulted fields x m,
        assigned_twice (text_eq name_label j) (name x.object_meta) (name obj.object_meta)
            (map_get h (labels obj.object_meta) j) (name-defaulted fields obj h)
            (labels_read fields x m live_l' live_a' apart' j)
            (labels_read fields obj h live_l live_a apart j),
        assigned_twice (text_eq annotation_image j) default_image default_image
            (map_get h (annotations obj.object_meta) j) refl
            (annotations_read fields x m live_l' live_a' apart' j)
            (annotations_read fields obj h live_l live_a apart j),
      )
