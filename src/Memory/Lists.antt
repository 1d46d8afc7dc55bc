-- ===== src/Memory/Lists.antt =====
-- Slices converted one element at a time, and cast.
use cloud_native_tour.Common.{
  ℕ, suc, ◌≡◌, refl, ap, ◌∙◌, List, [], ◌∷◌, map, map-inverse, Option, none, some,
}
use mathlib.Core.Option
use cloud_native_tour.Memory.{Slice, Alloc, copy_pointer, copy_list, copy_slice, cast_slice}

-- There and back again: `f` of what comes back is `g` of what it was, for the list if for each element.
copy_list-copy_list :
    {A B C : Type 0} (there : A → Alloc B) (back : B → Alloc A) (f g : A → C)
    → ((x : A) (n m : ℕ) → f (back (there x n).0 m).0 ≡ g x)
    → (xs : List A) (n m : ℕ) → map f (copy_list back (copy_list there xs n).0 m).0 ≡ map g xs
unfolding copy_list
copy_list-copy_list there back f g h [] n m = refl
copy_list-copy_list there back f g h (x ∷ xs) n m =
    let k = (there x n).1 in
    let l = (back (there x n).0 m).1 in
    ap (λ y. y ∷ map f (copy_list back (copy_list there xs k).0 l).0) (h x n m)
    ∙ ap (λ ys. g x ∷ ys) (copy_list-copy_list there back f g h xs k l)

-- What a slice refers to.
abbrev pub elements : {A : Type 0} → Slice A → Option (List A)
elements none = none
elements (some c) = some c.content

pub copy_slice-copy_slice :
    {A B C : Type 0} (there : A → Alloc B) (back : B → Alloc A) (f g : A → C)
    → ((x : A) (n m : ℕ) → f (back (there x n).0 m).0 ≡ g x)
    → (s : Slice A) (n m : ℕ)
    → Option.map (map f) (elements (copy_slice back (copy_slice there s n).0 m).0)
      ≡ Option.map (map g) (elements s)
unfolding copy_slice copy_pointer
copy_slice-copy_slice there back f g h none n m = refl
copy_slice-copy_slice there back f g h (some c) n m =
    ap some (copy_list-copy_list there back f g h c.content (suc n) (suc m))

pub cast_slice-inverse :
    {A B : Type 0} (f : A → B) (g : B → A)
    → ((a : A) → g (f a) ≡ a)
    → (s : Slice A) → cast_slice g (cast_slice f s) ≡ s
unfolding cast_slice
cast_slice-inverse f g h none = refl
cast_slice-inverse f g h (some c) =
    ap (λ xs. some (record { address = c.address; content = xs })) (map-inverse f g h c.content)
