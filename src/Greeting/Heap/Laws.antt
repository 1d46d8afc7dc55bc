-- ===== src/Greeting/Heap/Laws.antt =====
-- Reading a map after an assignment: the key assigned in this map, everything else unchanged.
use cloud_native_tour.Common.{
  ℕ, zero, suc, ◌≤◌, ◌<◌, ◌≡◌, ◌≢◌, refl, sym, ap, ◌∙◌, Text, text_eq, text_eq_iff, [], ◌∷◌, ◌++◌,
  none, some, ◌==◌, if◌then◌else◌, length, set, length-append, arith,
}
use cloud_native_tour.Greeting.Heap.{
  Table, Heap, Ref, lookup, insert, table_at, map_get, map_set, ensure_map, IsLive,
}

pub lookup-insert :
    (k j v : Text) (t : Table) → lookup j (insert k v t) ≡ (if text_eq k j then v else lookup j t)
unfolding lookup insert
lookup-insert k j v [] = refl
lookup-insert k j v ((i, w) ∷ t) =
    ground (arith, text_eq_iff k j, text_eq_iff i k, text_eq_iff i j, lookup-insert k j v t)

table_at-set :
    (h : Heap) (a b : ℕ) (t : Table)
    → a < length h
    → table_at (set h a t) b ≡ (if a == b then t else table_at h b)
unfolding table_at
table_at-set [] a b t p = elim p [ ]
table_at-set (x ∷ h) zero zero t p = refl
table_at-set (x ∷ h) zero (suc b) t p = ground arith
table_at-set (x ∷ h) (suc a) zero t p = ground arith
table_at-set (x ∷ h) (suc a) (suc b) t p = ground (arith, table_at-set h a b t)

pub table_at-set_self : (h : Heap) (a : ℕ) (t : Table) → a < length h → table_at (set h a t) a ≡ t
table_at-set_self h a t p = ground (arith, table_at-set h a a t p)

pub table_at-set_ne :
    (h : Heap) (a b : ℕ) (t : Table) → a < length h → a ≢ b → table_at (set h a t) b ≡ table_at h b
table_at-set_ne h a b t p d = ground (arith, table_at-set h a b t p)

pub length-set : (h : Heap) (a : ℕ) (t : Table) → length (set h a t) ≡ length h
length-set [] a t = refl
length-set (x ∷ h) zero t = refl
length-set (x ∷ h) (suc a) t = ap suc (length-set h a t)

table_at-append : (h : Heap) (b : ℕ) → b < length h → table_at (h ++ ([] ∷ [])) b ≡ table_at h b
unfolding table_at
table_at-append [] b p = elim p [ ]
table_at-append (x ∷ h) zero p = refl
table_at-append (x ∷ h) (suc b) p = table_at-append h b (omega arith)

table_at-new : (h : Heap) → table_at (h ++ ([] ∷ [])) (length h) ≡ []
unfolding table_at
table_at-new [] = refl
table_at-new (x ∷ h) = table_at-new h

-- The address that an assignment after `ensure_map` goes to, and the heap afterwards.
abbrev pub address : Ref → Heap → ℕ
address none h = length h
address (some a) h = a

unfoldable pub assigned : Heap → Ref → Text → Text → Heap
assigned h r k v =
    let made = (ensure_map r h).1 in
    set made (address r h) (insert k v (table_at made (address r h)))

pub ensure_map-address : (r : Ref) (h : Heap) → (ensure_map r h).0 ≡ some (address r h)
unfolding ensure_map
ensure_map-address none h = refl
ensure_map-address (some a) h = refl

-- After the nil check the assignment does not panic.
pub map_set-ensure_map :
    (h : Heap) (r : Ref) (k v : Text)
    → map_set (ensure_map r h).1 (ensure_map r h).0 k v ≡ some (assigned h r k v)
unfolding map_set assigned
map_set-ensure_map h r k v = rw (ensure_map-address r h)

pub address-lt : (h : Heap) (r : Ref) → IsLive h r → address r h < length (ensure_map r h).1
unfolding ensure_map
address-lt h none l = omega (arith, length-append h ([] ∷ []))
address-lt h (some a) l = l

pub address-lt-assigned :
    (h : Heap) (r : Ref) (k v : Text) → IsLive h r → address r h < length (assigned h r k v)
unfolding assigned
address-lt-assigned h r k v l = rw length-set (address-lt h r l)

pub length-le-assigned : (h : Heap) (r : Ref) (k v : Text) → length h ≤ length (assigned h r k v)
unfolding assigned ensure_map
length-le-assigned h none k v = rw length-set (omega (arith, length-append h ([] ∷ [])))
length-le-assigned h (some a) k v = rw length-set (omega arith)

pub map_get-ensure_map :
    (h : Heap) (r : Ref) (j : Text)
    → lookup j (table_at (ensure_map r h).1 (address r h)) ≡ map_get h r j
unfolding ensure_map map_get
map_get-ensure_map h none j = rw table_at-new (unfold lookup in refl)
map_get-ensure_map h (some a) j = refl

pub table_at-ensure_map :
    (h : Heap) (r : Ref) (b : ℕ) → b < length h → table_at (ensure_map r h).1 b ≡ table_at h b
unfolding ensure_map
table_at-ensure_map h none b p = table_at-append h b p
table_at-ensure_map h (some a) b p = refl

-- The map assigned to: the key has its new value, the other keys theirs.
pub map_get-assigned_self :
    (h : Heap) (r : Ref) (k v j : Text)
    → IsLive h r
    → map_get (assigned h r k v) (some (address r h)) j ≡ (if text_eq k j then v else map_get h r j)
unfolding assigned map_get
map_get-assigned_self h r k v j l =
    let made = (ensure_map r h).1 in
    let a = address r h in
    ap (lookup j) (table_at-set_self made a (insert k v (table_at made a)) (address-lt h r l))
    ∙ lookup-insert k j v (table_at made a)
    ∙ ap (λ t. if text_eq k j then v else t) (map_get-ensure_map h r j)

-- Every other map keeps its keys.
pub map_get-assigned_ne :
    (h : Heap) (r s : Ref) (k v j : Text)
    → IsLive h r
    → IsLive h s
    → s ≢ some (address r h)
    → map_get (assigned h r k v) s j ≡ map_get h s j
unfolding assigned map_get
map_get-assigned_ne h r none k v j l m d = refl
map_get-assigned_ne h r (some b) k v j l m d =
    let made = (ensure_map r h).1 in
    let a = address r h in
    ap (lookup j) (
      table_at-set_ne made a b (insert k v (table_at made a)) (address-lt h r l)
        (λ e. d (ap some (sym e)))
      ∙ table_at-ensure_map h r b m)
