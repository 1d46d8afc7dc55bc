-- ===== src/Greeting/V1/Conversion/Laws.antt =====
-- One Foo between v1 and the internal version: what survives, and whose annotations are written.
use cloud_native_tour.Common.{
  ℕ, ◌<◌, ◌≡◌, ◌≢◌, refl, sym, ap, ◌∙◌, Text, text_eq, text_eq_iff, text_eq_refl, some,
  if◌then◌else◌, Bool-cases, inl, inr, length,
}
use cloud_native_tour.Greeting.Heap.{Heap, Ref, IsLive, map_get}
use cloud_native_tour.Greeting.Heap.Laws.{
  address, assigned, ensure_map-address, map_set-ensure_map, map_get-assigned_self,
  map_get-assigned_ne,
}
use cloud_native_tour.Greeting.ObjectMeta.{ObjectMetaFields}
use cloud_native_tour.Greeting.Internal as Internal
use cloud_native_tour.Greeting.V1.Types.{Foo}
use cloud_native_tour.Greeting.V1.Conversion.{
  annotation_image, convert_greeting_foo_to_v1, convert_v1_foo_to_greeting,
}

-- Assigning to a key what it already reads as changes no key.
reread :
    (h : Heap) (r : Ref) (k j : Text)
    → (if text_eq k j then map_get h r k else map_get h r j) ≡ map_get h r j
reread h r k j = elim (Bool-cases (text_eq k j)) [
  | inl e ↦ rw e (ap (map_get h r) ((text_eq_iff k j).0 e))
  | inr e ↦ rw e
]

module _ {T O : Type 0} (fields : ObjectMetaFields O) where
  open fields use {annotations, set_annotations, annotations-set_annotations}

  -- The annotations that the image goes to.
  abbrev pub target : Internal.Foo T O → Heap → Ref
  target source h = some (address (annotations source.object_meta) h)

  abbrev pub v1_of : Internal.Foo T O → Foo T O → Heap → Foo T O
  v1_of source out h = record {
    type_meta = out.type_meta;
    object_meta = set_annotations source.object_meta (target source h);
    spec = record {
      message = source.spec.config.message;
      description = source.spec.config.description;
    };
  }

  abbrev pub heap_after : Internal.Foo T O → Heap → Heap
  heap_after source h =
      assigned h (annotations source.object_meta) annotation_image source.spec.image

  -- The conversion does not panic; its result in full.
  pub convert_greeting_foo_to_v1_lem :
      (source : Internal.Foo T O) (out : Foo T O) (h : Heap)
      → convert_greeting_foo_to_v1 fields source out h
        ≡ some (v1_of source out h, heap_after source h)
  unfolding convert_greeting_foo_to_v1
  convert_greeting_foo_to_v1_lem source out h =
      rw (map_set-ensure_map h (annotations source.object_meta) annotation_image source.spec.image)
        (rw (ensure_map-address (annotations source.object_meta) h))

  pub image_kept :
      (source : Internal.Foo T O) (h : Heap)
      → IsLive h (annotations source.object_meta)
      → map_get (heap_after source h) (target source h) annotation_image ≡ source.spec.image
  image_kept source h live =
      map_get-assigned_self h (annotations source.object_meta) annotation_image source.spec.image
        annotation_image live
      ∙ rw (text_eq_refl annotation_image)

  -- Any heap in which the image still stands reads the spec back.
  pub convert_v1_foo_to_greeting-v1_of :
      (source : Internal.Foo T O) (out : Foo T O) (back : Internal.Foo T O) (h later : Heap)
      → map_get later (target source h) annotation_image ≡ source.spec.image
      → convert_v1_foo_to_greeting fields (v1_of source out h) back later ≡ record back {
        object_meta = set_annotations source.object_meta (target source h);
        spec = source.spec;
      }
  unfolding convert_v1_foo_to_greeting
  convert_v1_foo_to_greeting-v1_of source out back h later e =
      rw (annotations-set_annotations source.object_meta (target source h)) (rw e)

  -- Where the annotations of an internal Foo are nil or a map that has been made: converting it to v1
  -- does not panic, and converting the result to the internal version gives the object converted into
  -- with the spec of the first Foo, its image included, and with the metadata of the v1 object.
  pub convert_v1-convert_greeting :
      (source back : Internal.Foo T O) (out : Foo T O) (h : Heap)
      → IsLive h (annotations source.object_meta)
      → (p : Foo T O × Heap) × (convert_greeting_foo_to_v1 fields source out h ≡ some p)
        × (convert_v1_foo_to_greeting fields p.0 back p.1
            ≡ record back { object_meta = p.0.object_meta; spec = source.spec })
  convert_v1-convert_greeting source back out h live = (
    (v1_of source out h, heap_after source h),
    convert_greeting_foo_to_v1_lem source out h,
    convert_v1_foo_to_greeting-v1_of source out back h (heap_after source h)
        (image_kept source h live),
  )

  -- Where the annotations of an internal Foo, and another reference, are nil or maps that have been
  -- made: converting the Foo to v1 does not panic; in the annotations of the result the image's key
  -- reads as the image and every other key as it read in those of the Foo; and a map that is not the
  -- annotations of the result reads as before.
  pub convert_greeting_foo_to_v1_maps :
      (source : Internal.Foo T O) (out : Foo T O) (h : Heap) (other : Ref) (j : Text)
      → IsLive h (annotations source.object_meta)
      → IsLive h other
      → (p : Foo T O × Heap) × (convert_greeting_foo_to_v1 fields source out h ≡ some p)
        × (map_get p.1 (annotations p.0.object_meta) j ≡ (
            if text_eq annotation_image j
            then source.spec.image
            else map_get h (annotations source.object_meta) j))
        × (other ≢ annotations p.0.object_meta → map_get p.1 other j ≡ map_get h other j)
  convert_greeting_foo_to_v1_maps source out h other j live live' =
      let same = annotations-set_annotations source.object_meta (target source h) in
      (
        (v1_of source out h, heap_after source h),
        convert_greeting_foo_to_v1_lem source out h,
        rw same (
            map_get-assigned_self h (annotations source.object_meta) annotation_image
              source.spec.image j live),
        λ d.
            map_get-assigned_ne h (annotations source.object_meta) other annotation_image
              source.spec.image j live live' (λ e. d (e ∙ sym same)),
      )

  -- Where the annotations of an internal Foo are a map that has been made: converting the Foo to v1
  -- does not panic, and afterwards the image's key reads as the image also in the annotations of the
  -- Foo converted from.
  pub convert_greeting_foo_to_v1_writes_source :
      (source : Internal.Foo T O) (out : Foo T O) (h : Heap) (a : ℕ)
      → annotations source.object_meta ≡ some a
      → a < length h
      → (p : Foo T O × Heap) × (convert_greeting_foo_to_v1 fields source out h ≡ some p)
        × (map_get p.1 (annotations source.object_meta) annotation_image ≡ source.spec.image)
  convert_greeting_foo_to_v1_writes_source source out h a e live =
      let place : target source h ≡ annotations source.object_meta = rw e in
      let live' : IsLive h (annotations source.object_meta) = rw e live in
      (
        (v1_of source out h, heap_after source h),
        convert_greeting_foo_to_v1_lem source out h,
        rw place at (image_kept source h live'),
      )

  -- Where the annotations of a v1 Foo are nil or a map that has been made: converting it to the
  -- internal version and that to v1 does not panic, keeps the spec, and every key reads in the
  -- annotations of the result as it read in those of the Foo.
  pub convert_greeting-convert_v1 :
      (source out : Foo T O) (hub : Internal.Foo T O) (h : Heap) (j : Text)
      → IsLive h (annotations source.object_meta)
      → (p : Foo T O × Heap) × (convert_greeting_foo_to_v1 fields
            (convert_v1_foo_to_greeting fields source hub h)
            out
            h
          ≡ some p)
        × (p.0.spec ≡ source.spec)
        × (map_get p.1 (annotations p.0.object_meta) j
            ≡ map_get h (annotations source.object_meta) j)
  unfolding convert_v1_foo_to_greeting
  convert_greeting-convert_v1 source out hub h j live =
      let inner = convert_v1_foo_to_greeting fields source hub h in
      let same = annotations-set_annotations source.object_meta (target inner h) in
      let image = map_get h (annotations source.object_meta) annotation_image in
      (
        (v1_of inner out h, heap_after inner h),
        convert_greeting_foo_to_v1_lem inner out h,
        refl,
        rw same (
            map_get-assigned_self h (annotations source.object_meta) annotation_image image j live
            ∙ reread h (annotations source.object_meta) annotation_image j),
      )
