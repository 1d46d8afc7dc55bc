-- ===== src/Wire/Varint/Groups.antt =====
-- The base-128 groups of a number, lowest first: what the writer should write and the reader read.
use cloud_native_tour.Common.{
  ℕ, zero, suc, ◌+◌, ◌/◌, ◌%◌, ◌≤◌, List, [], ◌∷◌, ltb, if◌then◌else◌, length, ◌≡◌, refl, arith,
}

unfoldable pub groups : ℕ → ℕ → List ℕ
groups zero v = v ∷ []
groups (suc k) v =
    let rest = groups k (v / 128) in if ltb v 128 then v ∷ [] else (v % 128 + 128) ∷ rest

-- The encoding of a uint64.
unfoldable pub varint : ℕ → List ℕ
varint v = groups 9 v

pub length-groups : (k v : ℕ) → (1 ≤ length (groups k v)) × (length (groups k v) ≤ k + 1)
unfolding groups
length-groups zero v = omega arith
length-groups (suc k) v = ground (arith, length-groups k (v / 128))

-- The length depends on the number of groups alone.
pub length-groups_same : (k v w : ℕ) → v / 128 ≡ w / 128 → length (groups k v) ≡ length (groups k w)
unfolding groups
length-groups_same zero v w e = refl
length-groups_same (suc k) v w e = rw e (ground arith)

pub length-varint : (v : ℕ) → (1 ≤ length (varint v)) × (length (varint v) ≤ 10)
unfolding varint
length-varint v = length-groups 9 v
