-- ===== src/Greeting/V2/Defaults/Laws.antt =====
-- What defaulting leaves in the labels of a Foo.
use cloud_native_tour.Common.{◌≡◌, ◌≢◌, refl, sym, ◌∙◌, Text, text_eq, some, if◌then◌else◌}
use cloud_native_tour.Greeting.Heap.{Heap, Ref, IsLive, map_get}
use cloud_native_tour.Greeting.Heap.Laws.{
  address, assigned, ensure_map-address, map_set-ensure_map, map_get-assigned_self,
  map_get-assigned_ne,
}
use cloud_native_tour.Greeting.ObjectMeta.{ObjectMetaFields}
use cloud_native_tour.Greeting.V1.Defaults.{name_label}
use cloud_native_tour.Greeting.V2.Types.{Foo}
use cloud_native_tour.Greeting.V2.Defaults.{set_defaults_foo}

module _ {T O : Type 0} (fields : ObjectMetaFields O) where
  open fields use {name, labels, set_labels, labels-set_labels, name-set_labels}

  -- Where the labels of a v2 Foo, and another reference, are nil or maps that have been made:
  -- defaulting the Foo does not panic and keeps the spec, the status and the name; in the labels the
  -- name's label reads as the name and every other key as before; and a map that is not the labels of
  -- the result reads as before.
  pub set_defaults_foo_labels :
      (obj : Foo T O) (h : Heap) (other : Ref) (k : Text)
      → IsLive h (labels obj.object_meta)
      → IsLive h other
      → (p : Foo T O × Heap) × (set_defaults_foo fields obj h ≡ some p)
        × (p.0.spec ≡ obj.spec)
        × (p.0.status ≡ obj.status)
        × (name p.0.object_meta ≡ name obj.object_meta)
        × (map_get p.1 (labels p.0.object_meta) k ≡ (
            if text_eq name_label k
            then name obj.object_meta
            else map_get h (labels obj.object_meta) k))
        × (other ≢ labels p.0.object_meta → map_get p.1 other k ≡ map_get h other k)
  unfolding set_defaults_foo
  set_defaults_foo_labels obj h other k live live' =
      let l = labels obj.object_meta in
      let x = some (address l h) in
      let same = labels-set_labels obj.object_meta x in
      let n = name obj.object_meta in
      (
        (record obj { object_meta = set_labels obj.object_meta x }, assigned h l name_label n),
        rw (labels-set_labels, name-set_labels, map_set-ensure_map h l name_label n)
            (rw (ensure_map-address l h)),
        refl,
        refl,
        name-set_labels obj.object_meta x,
        rw same (map_get-assigned_self h l name_label n k live),
        λ d. map_get-assigned_ne h l other name_label n k live live' (λ e. d (e ∙ sym same)),
      )
