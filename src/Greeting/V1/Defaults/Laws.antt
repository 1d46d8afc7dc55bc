-- ===== src/Greeting/V1/Defaults/Laws.antt =====
-- What defaulting leaves in the labels and the annotations of a Foo.
use cloud_native_tour.Common.{
  ◌<◌, ◌≡◌, refl, sym, ap, ◌∙◌, Text, text_eq, text_eq_refl, some, if◌then◌else◌, length,
}
use mathlib.Core.Option
use cloud_native_tour.Greeting.Heap.{Heap, Ref, IsLive, AreApart, map_get}
use cloud_native_tour.Greeting.Heap.Laws.{ensure_map-address, length-set}
use cloud_native_tour.Greeting.Heap.Writes.{
  written, map_set-written, map_get-written_self, map_get-written_ne, second, first_address,
  second_address, first_address-lt_second, second_address-lt, map_get-second-first,
  map_get-second-second, addresses-ne,
}
use cloud_native_tour.Greeting.ObjectMeta.{ObjectMetaFields}
use cloud_native_tour.Greeting.Internal as Internal
use cloud_native_tour.Greeting.V1.Types.{Foo}
use cloud_native_tour.Greeting.V1.Conversion.{annotation_image, convert_v1_foo_to_greeting}
use cloud_native_tour.Greeting.V1.Defaults.{name_label, default_image, set_defaults_foo}

module _ {T O : Type 0} (fields : ObjectMetaFields O) where
  open fields use {
    name, labels, annotations, set_labels, set_annotations, labels-set_labels,
    annotations-set_annotations, annotations-set_labels, labels-set_annotations, name-set_labels,
    name-set_annotations,
  }

  module _ (obj : Foo T O) (h : Heap) where
    abbrev l : Ref
    l = labels obj.object_meta

    abbrev a : Ref
    a = annotations obj.object_meta

    abbrev pub defaulted : Foo T O
    defaulted = record obj {
      object_meta =
          set_annotations (set_labels obj.object_meta (some (first_address h l a)))
            (some (second_address h l a));
    }

    abbrev half : Heap
    half = written (second h l a) (first_address h l a) name_label (name obj.object_meta)

    abbrev pub heap_after : Heap
    heap_after = written half (second_address h l a) annotation_image default_image

    pub labels-defaulted : labels defaulted.object_meta ≡ some (first_address h l a)
    labels-defaulted =
        labels-set_annotations (set_labels obj.object_meta (some (first_address h l a)))
          (some (second_address h l a))
        ∙ labels-set_labels obj.object_meta (some (first_address h l a))

    pub name-defaulted : name defaulted.object_meta ≡ name obj.object_meta
    name-defaulted =
        name-set_annotations (set_labels obj.object_meta (some (first_address h l a)))
          (some (second_address h l a))
        ∙ name-set_labels obj.object_meta (some (first_address h l a))

    pub annotations-defaulted : annotations defaulted.object_meta ≡ some (second_address h l a)
    annotations-defaulted =
        annotations-set_annotations (set_labels obj.object_meta (some (first_address h l a)))
          (some (second_address h l a))

    pub set_defaults_foo-defaulted : set_defaults_foo fields obj h ≡ some (defaulted, heap_after)
    unfolding set_defaults_foo Option.bind
    set_defaults_foo-defaulted =
        rw
          (
            ensure_map-address (labels obj.object_meta) h,
            annotations-set_labels,
            ensure_map-address,
          )
          (rw (
            labels-defaulted, name-defaulted, map_set-written, annotations-defaulted,
            map_set-written,
          ))

    module _ (live_l : IsLive h l) (live_a : IsLive h a) (apart : AreApart l a) where
      live-half : second_address h l a < length half
      live-half = rw length-set (second_address-lt h l a live_l live_a)

      pub labels_read :
          (k : Text)
          → map_get heap_after (labels defaulted.object_meta) k
            ≡ (if text_eq name_label k then name obj.object_meta else map_get h l k)
      labels_read k =
          let x = first_address h l a in
          let y = second_address h l a in
          let x_lt = first_address-lt_second h l a live_l live_a in
          ap (λ r. map_get heap_after r k) labels-defaulted
          ∙ map_get-written_ne half y x annotation_image default_image k live-half
              (λ e. addresses-ne h l a live_l live_a apart (sym e))
          ∙ map_get-written_self (second h l a) x name_label (name obj.object_meta) k x_lt
          ∙ ap (λ t. if text_eq name_label k then name obj.object_meta else t)
              (map_get-second-first h l a live_l live_a k)

      pub annotations_read :
          (k : Text)
          → map_get heap_after (annotations defaulted.object_meta) k
            ≡ (if text_eq annotation_image k then default_image else map_get h a k)
      annotations_read k =
          let x = first_address h l a in
          let y = second_address h l a in
          let x_lt = first_address-lt_second h l a live_l live_a in
          ap (λ r. map_get heap_after r k) annotations-defaulted
          ∙ map_get-written_self half y annotation_image default_image k live-half
          ∙ ap (λ t. if text_eq annotation_image k then default_image else t)
              (map_get-written_ne (second h l a) x y name_label (name obj.object_meta) k x_lt
                  (addresses-ne h l a live_l live_a apart)
                ∙ map_get-second-second h l a live_l live_a k)

  -- Where the labels and the annotations of a v1 Foo are nil or maps that have been made, and are not
  -- one map: defaulting does not panic and keeps the spec and the name; in the labels the name's label
  -- reads as the name, and in the annotations the image's key reads as the default image, also where
  -- another image was given; every other key reads as before.
  pub set_defaults_foo_lem :
      (obj : Foo T O) (h : Heap) (k : Text)
      → IsLive h (labels obj.object_meta)
      → IsLive h (annotations obj.object_meta)
      → AreApart (labels obj.object_meta) (annotations obj.object_meta)
      → (p : Foo T O × Heap) × (set_defaults_foo fields obj h ≡ some p)
        × (p.0.spec ≡ obj.spec)
        × (name p.0.object_meta ≡ name obj.object_meta)
        × (map_get p.1 (labels p.0.object_meta) k ≡ (
            if text_eq name_label k
            then name obj.object_meta
            else map_get h (labels obj.object_meta) k))
        × (map_get p.1 (annotations p.0.object_meta) k ≡ (
            if text_eq annotation_image k
            then default_image
            else map_get h (annotations obj.object_meta) k))
  set_defaults_foo_lem obj h k live_l live_a apart = (
    (defaulted obj h, heap_after obj h),
    set_defaults_foo-defaulted obj h,
    refl,
    name-defaulted obj h,
    labels_read obj h live_l live_a apart k,
    annotations_read obj h live_l live_a apart k,
  )

  -- Where the labels and the annotations of a v1 Foo are nil or maps that have been made, and are not
  -- one map: defaulting the Foo does not panic, and converting the result to the internal version
  -- gives the default image, whatever image the annotations held before.
  pub convert_v1-set_defaults_image :
      (obj : Foo T O) (hub : Internal.Foo T O) (h : Heap)
      → IsLive h (labels obj.object_meta)
      → IsLive h (annotations obj.object_meta)
      → AreApart (labels obj.object_meta) (annotations obj.object_meta)
      → (p : Foo T O × Heap) × (set_defaults_foo fields obj h ≡ some p)
        × ((convert_v1_foo_to_greeting fields p.0 hub p.1).spec.image ≡ default_image)
  unfolding convert_v1_foo_to_greeting
  convert_v1-set_defaults_image obj hub h live_l live_a apart = (
    (defaulted obj h, heap_after obj h),
    set_defaults_foo-defaulted obj h,
    annotations_read obj h live_l live_a apart annotation_image
        ∙ rw (text_eq_refl annotation_image),
  )
