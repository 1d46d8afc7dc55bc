-- ===== src/Informers/Maps.antt =====
-- Go maps keyed by a reflect.Type, a type being its number.
use cloud_native_tour.Common.{
  ℕ, ◌≡◌, refl, sym, ap, ◌∙◌, List, [], ◌∷◌, Option, none, some, Bool, true, false, ◌==◌, ==_iff,
  if◌then◌else◌, Bool-cases, inl, inr, arith,
}
use mathlib.Core.Path.{subst}

module _ {A : Type 0} where
  unfoldable pub find : ℕ → List (ℕ × A) → Option A
  find k [] = none
  find k ((j, v) ∷ m) = if j == k then some v else find k m

  unfoldable pub put : ℕ → A → List (ℕ × A) → List (ℕ × A)
  put k v [] = (k, v) ∷ []
  put k v ((j, w) ∷ m) = if j == k then (k, v) ∷ m else (j, w) ∷ put k v m

  abbrev pub keys : List (ℕ × A) → List ℕ
  keys [] = []
  keys ((j, v) ∷ m) = j ∷ keys m

  pub find-put :
      (k j : ℕ) (v : A) (m : List (ℕ × A))
      → find k (put j v m) ≡ (if j == k then some v else find k m)
  unfolding find put
  find-put k j v [] = refl
  find-put k j v ((i, w) ∷ m) = ground (arith, find-put k j v m)

  -- An assignment to a missing key keeps what the other keys hold.
  pub find-put_missing :
      (k j : ℕ) (v w : A) (m : List (ℕ × A))
      → find j m ≡ none
      → find k m ≡ some w
      → find k (put j v m) ≡ some w
  find-put_missing k j v w m absent e = elim (Bool-cases (j == k)) [
    | inl same ↦ absurd (ground (arith, ap (λ n. find n m) ((==_iff j k).0 same), absent, e))
    | inr other ↦ find-put k j v m ∙ rw other e
  ]

unfoldable pub member : ℕ → List ℕ → Bool
member k [] = false
member k (j ∷ ks) = if j == k then true else member k ks

abbrev pub AreDistinct : List ℕ → Type 0
AreDistinct [] = Unit {0}
AreDistinct (k ∷ ks) = (member k ks ≡ false) × AreDistinct ks

-- Every element of the one list is in the other.
abbrev pub AreAmong : List ℕ → List ℕ → Type 0
AreAmong [] js = Unit {0}
AreAmong (k ∷ ks) js = (member k js ≡ true) × AreAmong ks js

pub AreAmong-cons : (k : ℕ) (ks js : List ℕ) → AreAmong ks js → AreAmong ks (k ∷ js)
unfolding member
AreAmong-cons k [] js h = tt
AreAmong-cons k (i ∷ ks) js (h, hs) = (ground (arith, h), AreAmong-cons k ks js hs)

pub member_self : (k : ℕ) (ks : List ℕ) → member k (k ∷ ks) ≡ true
unfolding member
member_self k ks = ground arith

-- What is not in the longer list is not in the shorter one.
pub not_among :
    (k : ℕ) (ks js : List ℕ) → AreAmong ks js → member k js ≡ false → member k ks ≡ false
unfolding member
not_among k [] js h e = refl
not_among k (i ∷ ks) js (h, hs) e = elim (Bool-cases (i == k)) [
  | inl same ↦ absurd (ground (arith, ap (λ n. member n js) ((==_iff i k).0 same), h, e))
  | inr other ↦ rw other (not_among k ks js hs e)
]

pub member-among :
    (k : ℕ) (ks js : List ℕ) → AreAmong ks js → member k ks ≡ true → member k js ≡ true
member-among k ks js h e = elim (Bool-cases (member k js)) [
  | inl t ↦ t
  | inr f ↦ absurd (ground (arith, not_among k ks js h f, e))
]

pub AreAmong-refl : (ks : List ℕ) → AreAmong ks ks
AreAmong-refl [] = tt
AreAmong-refl (k ∷ ks) = (member_self k ks, AreAmong-cons k ks ks (AreAmong-refl ks))

module _ {A : Type 0} where
  pub find-eq-none : (k : ℕ) (m : List (ℕ × A)) → member k (keys m) ≡ false → find k m ≡ none
  unfolding find member
  find-eq-none k [] h = refl
  find-eq-none k ((j, v) ∷ m) h = ground (arith, find-eq-none k m, h)

  pub member-eq-false : (k : ℕ) (m : List (ℕ × A)) → find k m ≡ none → member k (keys m) ≡ false
  unfolding find member
  member-eq-false k [] h = refl
  member-eq-false k ((j, v) ∷ m) h = ground (arith, member-eq-false k m, h)

  pub member-find :
      (k : ℕ) (v : A) (m : List (ℕ × A)) → find k m ≡ some v → member k (keys m) ≡ true
  member-find k v m e = elim (Bool-cases (member k (keys m))) [
    | inl t ↦ t
    | inr f ↦ absurd (ground (arith, find-eq-none k m f, e))
  ]

  -- Which keys there are after an assignment.
  pub member-keys-put :
      (k j : ℕ) (v : A) (m : List (ℕ × A))
      → member k (keys (put j v m)) ≡ (if j == k then true else member k (keys m))
  unfolding member put
  member-keys-put k j v [] = refl
  member-keys-put k j v ((i, w) ∷ m) = ground (arith, member-keys-put k j v m)

  put_here :
      (j : ℕ) (v : A) (i : ℕ) (w : A) (m : List (ℕ × A))
      → (i == j) ≡ true
      → put j v ((i, w) ∷ m) ≡ (j, v) ∷ m
  unfolding put
  put_here j v i w m e = rw e

  put_later :
      (j : ℕ) (v : A) (i : ℕ) (w : A) (m : List (ℕ × A))
      → (i == j) ≡ false
      → put j v ((i, w) ∷ m) ≡ (i, w) ∷ put j v m
  unfolding put
  put_later j v i w m e = rw e

  pub put-AreDistinct :
      (j : ℕ) (v : A) (m : List (ℕ × A)) → AreDistinct (keys m) → AreDistinct (keys (put j v m))
  unfolding put
  put-AreDistinct j v [] h = (unfold member in refl, tt)
  put-AreDistinct j v ((i, w) ∷ m) (h, hs) = elim (Bool-cases (i == j)) [
    | inl e ↦
        subst (λ l. AreDistinct (keys l)) (sym (put_here j v i w m e))
          (subst (λ k. member k (keys m) ≡ false) ((==_iff i j).0 e) h, hs)
    | inr e ↦
        subst (λ l. AreDistinct (keys l)) (sym (put_later j v i w m e))
          (ground (arith, member-keys-put i j v m, h, e), put-AreDistinct j v m hs)
  ]

  pub AreAmong-put :
      (ks : List ℕ) (j : ℕ) (v : A) (m : List (ℕ × A))
      → AreAmong ks (keys m)
      → AreAmong ks (keys (put j v m))
  AreAmong-put [] j v m h = tt
  AreAmong-put (k ∷ ks) j v m (h, hs) =
      (ground (arith, member-keys-put k j v m, h), AreAmong-put ks j v m hs)
