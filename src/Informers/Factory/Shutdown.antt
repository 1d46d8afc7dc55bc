-- ===== src/Informers/Factory/Shutdown.antt =====
-- Shutdown: no informer is launched afterwards, and it returns once the goroutines have ended.
use cloud_native_tour.Common.{
  ℕ, zero, suc, ◌<◌, ◌≡◌, refl, sym, ◌∙◌, List, [], ◌∷◌, Option, Option-cases, none, some, true,
  ==_iff, inl, inr, length, arith,
}
use mathlib.Core.Path.{subst}
use cloud_native_tour.Informers.Maps.{find, keys, AreAmong, member-among, AreAmong-refl}
use cloud_native_tour.Informers.Factory.{SharedInformerFactory, finish, shutdown, shutdown_returns}
use cloud_native_tour.Informers.Factory.Start.{IsWellFormed, start_down}
use cloud_native_tour.Informers.Factory.Steps.{
  Step, started, asked, shut, ended, Reach, here, next, informer_for-chosen, Step-IsWellFormed,
}
use cloud_native_tour.Informers.Factory.Removal.{keys-remove_at, length-remove_at}

AreAmong-trans : (ks js is : List ℕ) → AreAmong ks js → AreAmong js is → AreAmong ks is
AreAmong-trans [] js is h k = tt
AreAmong-trans (i ∷ ks) js is (h, hs) k = (member-among i js is k h, AreAmong-trans ks js is hs k)

module _ {C W F I S : Type 0} (set_transform : I → Option F → I) where
  -- What no step undoes once the factory shuts down.
  abbrev pub StaysDown : SharedInformerFactory C W F I S → SharedInformerFactory C W F I S → Type 0
  StaysDown f g =
      (g.shutting_down ≡ true)
      × (g.started ≡ f.started)
      × AreAmong (keys g.running) (keys f.running)

  stays : (f : SharedInformerFactory C W F I S) → f.shutting_down ≡ true → StaysDown f f
  stays f e = (e, refl, AreAmong-refl (keys f.running))

  pub Step-StaysDown :
      {f g : SharedInformerFactory C W F I S}
      → Step set_transform f g
      → f.shutting_down ≡ true
      → StaysDown f g
  unfolding shutdown finish
  Step-StaysDown (started stop f) e = subst (StaysDown f) (sym (start_down stop f e)) (stays f e)
  Step-StaysDown (asked kind new_func f) e = elim (Option-cases (find kind f.informers)) [
    | inl none_there ↦
        subst (λ (r : I × SharedInformerFactory C W F I S). StaysDown f r.1)
          (sym (informer_for-chosen set_transform kind new_func f none none_there))
          (e, refl, AreAmong-refl (keys f.running))
    | inr (i, there) ↦
        subst (λ (r : I × SharedInformerFactory C W F I S). StaysDown f r.1)
          (sym (informer_for-chosen set_transform kind new_func f (some i) there)) (stays f e)
  ]
  Step-StaysDown (shut f) e = (refl, refl, AreAmong-refl (keys f.running))
  Step-StaysDown (ended k f p) e =
      (e, refl, keys-remove_at k f.running (keys f.running) (AreAmong-refl (keys f.running)))

  -- Once a factory shuts down: whatever calls of Start, InformerFor and Shutdown follow, and whichever
  -- goroutines end, it stays so, no further informer is started, and none runs that did not run then.
  pub Reach-StaysDown :
      {f g : SharedInformerFactory C W F I S}
      → Reach set_transform f g
      → f.shutting_down ≡ true
      → StaysDown f g
  Reach-StaysDown {f} here e = stays f e
  Reach-StaysDown {f} {g} (next {g = m} r s) e =
      let (down, same, among) = Reach-StaysDown r e in
      let (down', same', among') = Step-StaysDown s down in
      (
        down',
        same' ∙ same,
        AreAmong-trans (keys g.running) (keys m.running) (keys f.running) among' among,
      )

  Reach-first :
      {f g h : SharedInformerFactory C W F I S}
      → Step set_transform f g
      → Reach set_transform g h
      → Reach set_transform f h
  Reach-first s here = next here s
  Reach-first s (next r t) = next (Reach-first s r) t

  -- As many goroutines end as run.
  all_end :
      (n : ℕ) (f : SharedInformerFactory C W F I S)
      → length f.running ≡ n
      → IsWellFormed f
      → (g : SharedInformerFactory C W F I S) × Reach set_transform f g
        × (g.shutting_down ≡ f.shutting_down)
        × (shutdown_returns g ≡ true)
  unfolding shutdown_returns finish
  all_end zero f e h = (f, here, refl, (==_iff f.wait_group 0).1 (h.counted ∙ e))
  all_end (suc n) f e h =
      let p : 0 < length f.running = omega (arith, e) in
      let step : Step set_transform f (finish 0 f) = ended 0 f p in
      let fewer : length (finish 0 f).running ≡ n =
        omega (arith, e, length-remove_at 0 f.running p) in
      let (g, r, down, done) =
        all_end n (finish 0 f) fewer (Step-IsWellFormed set_transform step h) in
      (g, Reach-first step r, down, done)

  -- From a well-formed factory that is told to shut down, a state can be reached in which it is shut
  -- down and the wait of Shutdown returns.
  pub shutdown-returns :
      (f : SharedInformerFactory C W F I S)
      → IsWellFormed f
      → (g : SharedInformerFactory C W F I S) × Reach set_transform (shutdown f) g
        × (g.shutting_down ≡ true)
        × (shutdown_returns g ≡ true)
  unfolding shutdown
  shutdown-returns f h =
      all_end (length f.running) (shutdown f) refl (Step-IsWellFormed set_transform (shut f) h)
