-- ===== src/Informers/Factory/Sync.antt =====
-- WaitForCacheSync: one answer for each informer that was started, and none for another.
use cloud_native_tour.Common.{
  ℕ, ◌≡◌, refl, sym, ap, ◌∙◌, List, [], ◌∷◌, Option, none, some, Bool, true, false, ◌==◌, ==_iff,
  if◌then◌else◌, Bool-cases, inl, inr,
}
use mathlib.Core.Option
use mathlib.Core.Path.{subst}
use cloud_native_tour.Informers.Maps.{
  find, put, find-put, find-eq-none, member, keys, AreDistinct, put-AreDistinct,
}
use cloud_native_tour.Informers.Factory.{
  SharedInformerFactory, started_informers, sync_all, wait_for_cache_sync,
}

-- A value written over another, if there is one and `b` says so.
abbrev over : {A : Type 0} → Bool → Option A → Option A → Option A
over b none old = old
over b (some v) old = if b then some v else old

find-cons_same :
    {A : Type 0} (k j : ℕ) (v : A) (m : List (ℕ × A))
    → (j == k) ≡ true
    → find k ((j, v) ∷ m) ≡ some v
unfolding find
find-cons_same k j v m e = rw e

find-cons_other :
    {A : Type 0} (k j : ℕ) (v : A) (m : List (ℕ × A))
    → (j == k) ≡ false
    → find k ((j, v) ∷ m) ≡ find k m
unfolding find
find-cons_other k j v m e = rw e

written :
    {A : Type 0} (k j : ℕ) (v : A) (st : List ℕ) (res : List (ℕ × A))
    → (j == k) ≡ true
    → find k (if member j st then put j v res else res) ≡ over (member k st) (some v) (find k res)
written k j v st res e = elim (Bool-cases (member j st)) [
  | inl t ↦
      let u : member k st ≡ true = ap (λ n. member n st) (sym ((==_iff j k).0 e)) ∙ t in
      rw (t, u) (find-put k j v res ∙ rw e refl)
  | inr t ↦
      let u : member k st ≡ false = ap (λ n. member n st) (sym ((==_iff j k).0 e)) ∙ t in
      rw (t, u) refl
]

unwritten :
    {A : Type 0} (k j : ℕ) (v : A) (st : List ℕ) (res : List (ℕ × A))
    → (j == k) ≡ false
    → find k (if member j st then put j v res else res) ≡ find k res
unwritten k j v st res e = elim (Bool-cases (member j st)) [
  | inl t ↦ rw t (find-put k j v res ∙ rw e refl)
  | inr t ↦ rw t refl
]

find-started_informers :
    {I : Type 0} (k : ℕ) (xs : List (ℕ × I)) (st : List ℕ) (res : List (ℕ × I))
    → AreDistinct (keys xs)
    → find k (started_informers xs st res) ≡ over (member k st) (find k xs) (find k res)
unfolding started_informers
find-started_informers k [] st res d = unfold find in refl
find-started_informers k ((j, i) ∷ rest) st res (d, ds) =
    let res' = if member j st then put j i res else res in
    find-started_informers k rest st res' ds ∙ elim (Bool-cases (j == k)) [
      | inl e ↦
          let same = (==_iff j k).0 e in
          let gone = find-eq-none k rest (subst (λ n. member n (keys rest) ≡ false) same d) in
          rw (gone, find-cons_same k j i rest e) (written k j i st res e)
      | inr e ↦
          rw (find-cons_other k j i rest e)
            (ap (over (member k st) (find k rest)) (unwritten k j i st res e))
    ]

find-sync_all :
    {I : Type 0} (wait : I → Bool) (k : ℕ) (xs : List (ℕ × I)) (res : List (ℕ × Bool))
    → AreDistinct (keys xs)
    → find k (sync_all wait xs res) ≡ over true (Option.map wait (find k xs)) (find k res)
unfolding sync_all
find-sync_all wait k [] res d = unfold find in refl
find-sync_all wait k ((j, i) ∷ rest) res (d, ds) =
    find-sync_all wait k rest (put j (wait i) res) ds ∙ elim (Bool-cases (j == k)) [
      | inl e ↦
          let same = (==_iff j k).0 e in
          let gone = find-eq-none k rest (subst (λ n. member n (keys rest) ≡ false) same d) in
          rw (gone, find-cons_same k j i rest e) (find-put k j (wait i) res ∙ rw e refl)
      | inr e ↦
          rw (find-cons_other k j i rest e)
            (ap (over true (Option.map wait (find k rest))) (find-put k j (wait i) res ∙ rw e refl))
    ]

started_informers-AreDistinct :
    {I : Type 0} (xs : List (ℕ × I)) (st : List ℕ) (res : List (ℕ × I))
    → AreDistinct (keys res)
    → AreDistinct (keys (started_informers xs st res))
unfolding started_informers
started_informers-AreDistinct [] st res d = d
started_informers-AreDistinct ((j, i) ∷ rest) st res d =
    started_informers-AreDistinct rest st (if member j st then put j i res else res)
      (elim (Bool-cases (member j st)) [
        | inl t ↦ rw t (put-AreDistinct j i res d)
        | inr t ↦ rw t d
      ])

over_nothing :
    {A B : Type 0} (f : A → B) (b : Bool) (o : Option A)
    → over true (Option.map f (over b o none)) none ≡ (if b then Option.map f o else none)
over_nothing f true none = refl
over_nothing f true (some a) = refl
over_nothing f false none = refl
over_nothing f false (some a) = refl

-- Where no type has two informers: the map that WaitForCacheSync returns has, for a type whose
-- informer was started, the answer of cache.WaitForCacheSync for it, and nothing for any other type.
pub find-wait_for_cache_sync :
    {C W F I S : Type 0} (wait : I → Bool) (f : SharedInformerFactory C W F I S) (kind : ℕ)
    → AreDistinct (keys f.informers)
    → find kind (wait_for_cache_sync wait f)
      ≡ (if member kind f.started then Option.map wait (find kind f.informers) else none)
unfolding wait_for_cache_sync find
find-wait_for_cache_sync wait f kind d =
    find-sync_all wait kind (started_informers f.informers f.started []) []
      (started_informers-AreDistinct f.informers f.started [] tt)
    ∙ ap (λ o. over true (Option.map wait o) none)
        (find-started_informers kind f.informers f.started [] d)
    ∙ over_nothing wait (member kind f.started) (find kind f.informers)
