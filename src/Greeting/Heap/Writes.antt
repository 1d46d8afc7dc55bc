-- ===== src/Greeting/Heap/Writes.antt =====
-- Two nil checks first and then two assignments, the order that defaulting writes its maps in.
use cloud_native_tour.Common.{
  ℕ, ◌≤◌, ◌<◌, ◌≡◌, ◌≢◌, refl, ◌∙◌, Text, text_eq, [], ◌∷◌, none, some, if◌then◌else◌, length, set,
  length-append, arith,
}
use cloud_native_tour.Greeting.Heap.{
  Heap, Ref, insert, table_at, map_get, map_set, ensure_map, IsLive, AreApart,
}
use cloud_native_tour.Greeting.Heap.Laws.{
  address, address-lt, lookup-insert, table_at-set_self, table_at-set_ne, map_get-ensure_map,
  table_at-ensure_map,
}

abbrev pub written : Heap → ℕ → Text → Text → Heap
written h a k v = set h a (insert k v (table_at h a))

pub map_set-written :
    (h : Heap) (a : ℕ) (k v : Text) → map_set h (some a) k v ≡ some (written h a k v)
unfolding map_set
map_set-written h a k v = refl

pub map_get-written_self :
    (h : Heap) (a : ℕ) (k v j : Text)
    → a < length h
    → map_get (written h a k v) (some a) j ≡ (if text_eq k j then v else map_get h (some a) j)
unfolding map_get
map_get-written_self h a k v j p =
    rw (table_at-set_self h a (insert k v (table_at h a)) p) (lookup-insert k j v (table_at h a))

pub map_get-written_ne :
    (h : Heap) (a b : ℕ) (k v j : Text)
    → a < length h
    → a ≢ b
    → map_get (written h a k v) (some b) j ≡ map_get h (some b) j
unfolding map_get
map_get-written_ne h a b k v j p d = rw (table_at-set_ne h a b (insert k v (table_at h a)) p d)

length-le-ensure_map : (r : Ref) (h : Heap) → length h ≤ length (ensure_map r h).1
unfolding ensure_map
length-le-ensure_map none h = omega (arith, length-append h ([] ∷ []))
length-le-ensure_map (some b) h = omega arith

IsLive-ensured : (s r : Ref) (h : Heap) → IsLive h r → IsLive (ensure_map s h).1 r
IsLive-ensured s none h p = tt
IsLive-ensured s (some b) h p = omega (arith, length-le-ensure_map s h)

-- Making a map changes what no map reads as.
map_get-ensured :
    (s r : Ref) (h : Heap) (j : Text) → IsLive h r → map_get (ensure_map s h).1 r j ≡ map_get h r j
unfolding map_get
map_get-ensured s none h j l = refl
map_get-ensured s (some b) h j l = rw (table_at-ensure_map h s b l)

map_get-made :
    (r : Ref) (h : Heap) (j : Text)
    → map_get (ensure_map r h).1 (some (address r h)) j ≡ map_get h r j
unfolding map_get
map_get-made r h j = map_get-ensure_map h r j

-- The two maps `l` and `a`, made in this order.
module _ (h : Heap) (l a : Ref) where
  abbrev pub first : Heap
  first = (ensure_map l h).1

  abbrev pub second : Heap
  second = (ensure_map a first).1

  abbrev pub first_address : ℕ
  first_address = address l h

  abbrev pub second_address : ℕ
  second_address = address a first

module _ (h : Heap) (l a : Ref) (live_l : IsLive h l) (live_a : IsLive h a) where
  first_address-lt : first_address h l a < length (first h l a)
  first_address-lt = address-lt h l live_l

  pub first_address-lt_second : first_address h l a < length (second h l a)
  first_address-lt_second = omega (arith, first_address-lt, length-le-ensure_map a (first h l a))

  pub second_address-lt : second_address h l a < length (second h l a)
  second_address-lt = address-lt (first h l a) a (IsLive-ensured l a h live_a)

  pub map_get-second-first :
      (j : Text) → map_get (second h l a) (some (first_address h l a)) j ≡ map_get h l j
  map_get-second-first j =
      map_get-ensured a (some (first_address h l a)) (first h l a) j first_address-lt
      ∙ map_get-made l h j

  pub map_get-second-second :
      (j : Text) → map_get (second h l a) (some (second_address h l a)) j ≡ map_get h a j
  map_get-second-second j = map_get-made a (first h l a) j ∙ map_get-ensured l a h j live_a

-- Two references to different maps have different addresses once the maps are made.
pub addresses-ne :
    (h : Heap) (l a : Ref)
    → IsLive h l
    → IsLive h a
    → AreApart l a
    → first_address h l a ≢ second_address h l a
unfolding ensure_map
addresses-ne h none none p q d = ground (arith, length-append h ([] ∷ []))
addresses-ne h none (some b) p q d = ground arith
addresses-ne h (some b) none p q d = ground arith
addresses-ne h (some b) (some c) p q d = d
