-- ===== src/Memory/Copy.antt =====
-- When a copy is deep: it stands in memory taken for it alone, and reads as the original does.
use cloud_native_tour.Common.{
  ℕ, suc, ◌≤◌, ◌<◌, ◌≡◌, refl, ap, ◌∙◌, List, [], ◌∷◌, ◌++◌, map, none, some, arith,
}
use cloud_native_tour.Memory.{Pointer, Slice, Alloc, pure, copy_pointer, copy_list}

-- The addresses that a value refers to, and the value with all of them forgotten.
pub record Memory (A : Type 0) : Type 0 where
  pub addresses : A → List ℕ
  pub forget : A → A

abbrev pub plain_memory : {A : Type 0} → Memory A
plain_memory = record { addresses = λ a. []; forget = λ a. a }

module _ {A : Type 0} (memory : Memory A) where
  abbrev pub cell_addresses : Pointer A → List ℕ
  cell_addresses none = []
  cell_addresses (some c) = c.address ∷ memory.addresses c.content

  abbrev pub cell_forget : Pointer A → Pointer A
  cell_forget none = none
  cell_forget (some c) = some (record { address = 0; content = memory.forget c.content })

  abbrev pub list_addresses : List A → List ℕ
  list_addresses [] = []
  list_addresses (x ∷ xs) = memory.addresses x ++ list_addresses xs

  abbrev pub pointer_memory : Memory (Pointer A)
  pointer_memory = record { addresses = cell_addresses; forget = cell_forget }

  abbrev pub list_memory : Memory (List A)
  list_memory = record { addresses = list_addresses; forget = map memory.forget }

abbrev pub slice_memory : {A : Type 0} → Memory A → Memory (Slice A)
slice_memory memory = pointer_memory (list_memory memory)

-- From `n` on and below `m`, each above the one before it, so that no two are the same: memory is listed
-- in the order in which it was taken.
abbrev pub AreWithin : ℕ → ℕ → List ℕ → Type 0
AreWithin n m [] = Unit {0}
AreWithin n m (x ∷ xs) = ((n ≤ x) × (x < m)) × AreWithin (suc x) m xs

AreWithin-le :
    (n n' m m' : ℕ) (xs : List ℕ) → n' ≤ n → m ≤ m' → AreWithin n m xs → AreWithin n' m' xs
AreWithin-le n n' m m' [] p q h = tt
AreWithin-le n n' m m' (x ∷ xs) p q (h, hs) = (
  (omega (arith, h.0), omega (arith, h.1)),
  AreWithin-le (suc x) (suc x) m m' xs (omega arith) q hs,
)

-- Memory taken first and memory taken next.
pub AreWithin-then :
    (n m k : ℕ) (xs ys : List ℕ)
    → n ≤ m
    → m ≤ k
    → AreWithin n m xs
    → AreWithin m k ys
    → AreWithin n k (xs ++ ys)
AreWithin-then n m k [] ys p q h g = AreWithin-le m n k k ys p (omega arith) g
AreWithin-then n m k (x ∷ xs) ys p q (h, hs) g =
    ((h.0, omega (arith, h.1)), AreWithin-then (suc x) m k xs ys (omega (arith, h.1)) q hs g)

-- `r` is a deep copy of `a`, made from address `n` on.
pub record IsDeepCopy {A : Type 0} (memory : Memory A) (a : A) (n : ℕ) (r : A × ℕ) : Type 0 where
  pub grows : n ≤ r.1
  pub fresh : AreWithin n r.1 (memory.addresses r.0)
  pub same : memory.forget r.0 ≡ memory.forget a

-- Memory taken from `n` on and before `m`, for these addresses.
abbrev pub IsFresh : ℕ → ℕ → List ℕ → Type 0
IsFresh n m xs = (n ≤ m) × AreWithin n m xs

pub IsFresh-then :
    (n m k : ℕ) (xs ys : List ℕ) → IsFresh n m xs → IsFresh m k ys → IsFresh n k (xs ++ ys)
IsFresh-then n m k xs ys (p, h) (q, g) = (omega (arith, p, q), AreWithin-then n m k xs ys p q h g)

-- A struct whose parts are copied one after the other.
pub IsDeepCopy-IsFresh :
    {A : Type 0} {memory : Memory A} {a : A} {n : ℕ} {r : A × ℕ}
    → IsDeepCopy memory a n r
    → IsFresh n r.1 (memory.addresses r.0)
IsDeepCopy-IsFresh d = (d.grows, d.fresh)

-- A way to copy that is deep; that of a library's type is one by assumption.
pub record Copier {A : Type 0} (memory : Memory A) : Type 0 where
  pub copy : A → Alloc A
  pub deep : (a : A) (n : ℕ) → IsDeepCopy memory a n (copy a n)

abbrev pub plain : {A : Type 0} → Copier {A = A} plain_memory
plain = record {
  copy = pure;
  deep = λ a n. record { grows = omega arith; fresh = tt; same = refl };
}

module _ {A : Type 0} (memory : Memory A) (copier : Copier memory) where
  pub copy_pointer-IsDeepCopy :
      (p : Pointer A) (n : ℕ)
      → IsDeepCopy (pointer_memory memory) p n (copy_pointer copier.copy p n)
  unfolding copy_pointer
  copy_pointer-IsDeepCopy none n = record { grows = omega arith; fresh = tt; same = refl }
  copy_pointer-IsDeepCopy (some c) n =
      let d = copier.deep c.content (suc n) in
      let m = (copier.copy c.content (suc n)).1 in
      let xs = memory.addresses (copier.copy c.content (suc n)).0 in
      record {
        grows = omega (arith, d.grows);
        fresh = ((omega arith, omega (arith, d.grows)), d.fresh);
        same = ap (λ x. some (record { address = 0; content = x })) d.same;
      }

  pub copy_list-IsDeepCopy :
      (xs : List A) (n : ℕ) → IsDeepCopy (list_memory memory) xs n (copy_list copier.copy xs n)
  unfolding copy_list
  copy_list-IsDeepCopy [] n = record { grows = omega arith; fresh = tt; same = refl }
  copy_list-IsDeepCopy (x ∷ xs) n =
      let m = (copier.copy x n).1 in
      let d = copier.deep x n in
      let e = copy_list-IsDeepCopy xs m in
      let y = (copier.copy x n).0 in
      let ys = copy_list copier.copy xs m in
      record {
        grows = omega (arith, d.grows, e.grows);
        fresh =
            AreWithin-then n m ys.1 (memory.addresses y) (list_addresses memory ys.0) d.grows
              e.grows d.fresh e.fresh;
        same = ap (λ z. z ∷ map memory.forget ys.0) d.same ∙ ap (λ zs. memory.forget x ∷ zs) e.same;
      }

abbrev pub pointer_copier :
    {A : Type 0} {memory : Memory A} → Copier memory → Copier (pointer_memory memory)
pointer_copier {memory} copier = record {
  copy = copy_pointer copier.copy;
  deep = copy_pointer-IsDeepCopy memory copier;
}

abbrev pub list_copier :
    {A : Type 0} {memory : Memory A} → Copier memory → Copier (list_memory memory)
list_copier {memory} copier = record {
  copy = copy_list copier.copy;
  deep = copy_list-IsDeepCopy memory copier;
}
