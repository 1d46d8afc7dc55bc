-- ===== src/Greeting/Heap.antt =====
-- Go maps from string to string. A map value is a reference, so an assignment to a key is seen by
-- everyone who holds the reference; `none` is the nil map.
pub mod Laws
pub mod Writes
use cloud_native_tour.Common.{
  ℕ, ◌<◌, ◌≢◌, Text, text_eq, List, [], ◌∷◌, ◌++◌, Option, none, some, if◌then◌else◌, length,
  get_elem?, set,
}

abbrev pub Table : Type 0
Table = List (Text × Text)

-- The maps made so far, by their addresses.
abbrev pub Heap : Type 0
Heap = List Table

abbrev pub Ref : Type 0
Ref = Option ℕ

-- A key that is missing reads as the empty string.
unfoldable pub lookup : Text → Table → Text
lookup k [] = []
lookup k ((j, v) ∷ t) = if text_eq j k then v else lookup k t

unfoldable pub insert : Text → Text → Table → Table
insert k v [] = (k, v) ∷ []
insert k v ((j, w) ∷ t) = if text_eq j k then (k, v) ∷ t else (j, w) ∷ insert k v t

unfoldable pub table_at : Heap → ℕ → Table
table_at h a = elim (get_elem? h a) [ none ↦ [] | some t ↦ t ]

-- `m[k]`
unfoldable pub map_get : Heap → Ref → Text → Text
map_get h none k = []
map_get h (some a) k = lookup k (table_at h a)

-- `m[k] = v`; a write to the nil map panics, which is `none`
unfoldable pub map_set : Heap → Ref → Text → Text → Option Heap
map_set h none k v = none
map_set h (some a) k v = some (set h a (insert k v (table_at h a)))

-- `if m == nil { m = map[string]string{} }`: the reference afterwards
unfoldable pub ensure_map : Ref → Heap → Ref × Heap
ensure_map none h = (some (length h), h ++ ([] ∷ []))
ensure_map (some a) h = (some a, h)

-- A reference is nil, or its map has been made.
abbrev pub IsLive : Heap → Ref → Type 0
IsLive h none = Unit {0}
IsLive h (some a) = a < length h

-- Two references that are not to one map; nil is apart from everything.
abbrev pub AreApart : Ref → Ref → Type 0
AreApart none r = Unit {0}
AreApart (some a) none = Unit {0}
AreApart (some a) (some b) = a ≢ b
