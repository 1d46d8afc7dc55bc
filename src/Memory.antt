-- ===== src/Memory.antt =====
-- Go's pointers and slices as what they refer to together with the address that it stands at, so that two
-- values that share memory have an address in common. Memory is handed out by counting addresses up.
pub mod Copy
pub mod Lists
use cloud_native_tour.Common.{ℕ, suc, List, [], ◌∷◌, map, Option, none, some}
use mathlib.Core.Option

pub record Cell (A : Type 0) : Type 0 where
  pub address : ℕ
  pub content : A

-- `none` is nil.
abbrev pub Pointer : Type 0 → Type 0
Pointer A = Option (Cell A)

abbrev pub Slice : Type 0 → Type 0
Slice A = Pointer (List A)

-- A computation that takes the first address not in use and leaves the next one.
abbrev pub Alloc : Type 0 → Type 0
Alloc A = ℕ → A × ℕ

abbrev pub pure : {A : Type 0} → A → Alloc A
pure a n = (a, n)

infixl 5 ◌>>=◌
abbrev pub ◌>>=◌ : {A B : Type 0} → Alloc A → (A → Alloc B) → Alloc B
◌>>=◌ run next n = next (run n).0 (run n).1

-- `new(A)`, filled by `fill`
unfoldable pub new : {A : Type 0} → Alloc A → Alloc (Cell A)
new fill n = (record { address = n; content = (fill (suc n)).0 }, (fill (suc n)).1)

-- `make([]B, len(xs))`, or `new`, unless the source is nil; then the content one by one
unfoldable pub copy_pointer : {A B : Type 0} → (A → Alloc B) → Pointer A → Alloc (Pointer B)
unfolding new
copy_pointer copy none = pure none
copy_pointer copy (some c) = do d ← new (copy c.content); pure (some d)

unfoldable pub copy_list : {A B : Type 0} → (A → Alloc B) → List A → Alloc (List B)
copy_list copy [] = pure []
copy_list copy (x ∷ xs) = do y ← copy x; ys ← copy_list copy xs; pure (y ∷ ys)

-- `(*out)[i]` for every `i`, after `make`
unfoldable pub copy_slice : {A B : Type 0} → (A → Alloc B) → Slice A → Alloc (Slice B)
unfolding copy_list copy_pointer
copy_slice copy s = copy_pointer (copy_list copy) s

-- `*(*[]B)(unsafe.Pointer(&s))`: the same memory, read as another type
unfoldable pub cast_slice : {A B : Type 0} → (A → B) → Slice A → Slice B
cast_slice f none = none
cast_slice f (some c) = some (record { address = c.address; content = map f c.content })
