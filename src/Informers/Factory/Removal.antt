-- ===== src/Informers/Factory/Removal.antt =====
-- A goroutine that ended, taken off the list of those that run.
use cloud_native_tour.Common.{ℕ, zero, suc, ◌+◌, ◌<◌, ◌≡◌, List, [], ◌∷◌, length, arith}
use cloud_native_tour.Informers.Maps.{keys, AreDistinct, AreAmong, not_among, AreAmong-refl}
use cloud_native_tour.Informers.Factory.{remove_at}

module _ {A : Type 0} where
  pub length-remove_at :
      (k : ℕ) (xs : List A) → k < length xs → length xs ≡ length (remove_at k xs) + 1
  unfolding remove_at
  length-remove_at k [] h = absurd (omega arith)
  length-remove_at zero (x ∷ xs) h = omega arith
  length-remove_at (suc k) (x ∷ xs) h = omega (arith, length-remove_at k xs (omega arith))

  pub keys-remove_at :
      (k : ℕ) (m : List (ℕ × A)) (js : List ℕ)
      → AreAmong (keys m) js
      → AreAmong (keys (remove_at k m)) js
  unfolding remove_at
  keys-remove_at k [] js h = h
  keys-remove_at zero ((i, v) ∷ m) js (h, hs) = hs
  keys-remove_at (suc k) ((i, v) ∷ m) js (h, hs) = (h, keys-remove_at k m js hs)

  pub remove_at-AreDistinct :
      (k : ℕ) (m : List (ℕ × A)) → AreDistinct (keys m) → AreDistinct (keys (remove_at k m))
  unfolding remove_at
  remove_at-AreDistinct k [] h = h
  remove_at-AreDistinct zero ((i, v) ∷ m) (h, hs) = hs
  remove_at-AreDistinct (suc k) ((i, v) ∷ m) (h, hs) = (
    not_among i (keys (remove_at k m)) (keys m)
        (keys-remove_at k m (keys m) (AreAmong-refl (keys m))) h,
    remove_at-AreDistinct k m hs,
  )
