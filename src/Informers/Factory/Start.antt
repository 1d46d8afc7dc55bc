-- ===== src/Informers/Factory/Start.antt =====
-- Start: every informer runs afterwards, each started once and counted once.
use cloud_native_tour.Common.{
  ℕ, ◌+◌, ◌≡◌, refl, sym, ap, ◌∙◌, List, [], ◌∷◌, true, false, Bool-cases, inl, inr, length,
  if◌then◌else◌, arith,
}
use mathlib.Core.Path.{subst}
use cloud_native_tour.Informers.Maps.{
  member, keys, AreDistinct, AreAmong, AreAmong-cons, AreAmong-refl, member_self, not_among,
}
use cloud_native_tour.Informers.Factory.{SharedInformerFactory, start_round, start_loop, start}

-- The informers that run are among those started, these among those made, none twice, and the wait group
-- counts the ones that run.
pub record IsWellFormed {C W F I S : Type 0} (f : SharedInformerFactory C W F I S) : Type 0 where
  pub informers_distinct : AreDistinct (keys f.informers)
  pub started_distinct : AreDistinct f.started
  pub started_known : AreAmong f.started (keys f.informers)
  pub running_distinct : AreDistinct (keys f.running)
  pub running_started : AreAmong (keys f.running) f.started
  pub counted : f.wait_group ≡ length f.running

module _ {C W F I S : Type 0} where
  abbrev pub launched : S → ℕ → SharedInformerFactory C W F I S → SharedInformerFactory C W F I S
  launched stop kind f = record f {
    wait_group = f.wait_group + 1;
    running = (kind, stop) ∷ f.running;
    started = kind ∷ f.started;
  }

  pub start_round_old :
      (stop : S) (kind : ℕ) (f : SharedInformerFactory C W F I S)
      → member kind f.started ≡ true
      → start_round stop kind f ≡ f
  unfolding start_round
  start_round_old stop kind f e = rw e

  pub start_round_new :
      (stop : S) (kind : ℕ) (f : SharedInformerFactory C W F I S)
      → member kind f.started ≡ false
      → start_round stop kind f ≡ launched stop kind f
  unfolding start_round
  start_round_new stop kind f e = rw e

  pub start_round-IsWellFormed :
      (stop : S) (kind : ℕ) (f : SharedInformerFactory C W F I S)
      → member kind (keys f.informers) ≡ true
      → IsWellFormed f
      → IsWellFormed (start_round stop kind f)
  start_round-IsWellFormed stop kind f known h = elim (Bool-cases (member kind f.started)) [
    | inl e ↦ subst IsWellFormed (sym (start_round_old stop kind f e)) h
    | inr e ↦
        let made : IsWellFormed (launched stop kind f) = record {
          informers_distinct = h.informers_distinct;
          started_distinct = (e, h.started_distinct);
          started_known = (known, h.started_known);
          running_distinct =
              (not_among kind (keys f.running) f.started h.running_started e, h.running_distinct);
          running_started = (
            member_self kind f.started,
            AreAmong-cons kind (keys f.running) f.started h.running_started,
          );
          counted = omega (arith, h.counted);
        } in
        subst IsWellFormed (sym (start_round_new stop kind f e)) made
  ]

  pub informers-start_round :
      (stop : S) (kind : ℕ) (f : SharedInformerFactory C W F I S)
      → (start_round stop kind f).informers ≡ f.informers
  informers-start_round stop kind f = elim (Bool-cases (member kind f.started)) [
    | inl e ↦ rw (start_round_old stop kind f e)
    | inr e ↦ rw (start_round_new stop kind f e)
  ]

  member-start_round :
      (stop : S) (kind : ℕ) (f : SharedInformerFactory C W F I S)
      → member kind (start_round stop kind f).started ≡ true
  member-start_round stop kind f = elim (Bool-cases (member kind f.started)) [
    | inl e ↦ rw (start_round_old stop kind f e) e
    | inr e ↦ rw (start_round_new stop kind f e) (member_self kind f.started)
  ]

  start_loop-IsWellFormed :
      (stop : S) (xs : List (ℕ × I)) (f : SharedInformerFactory C W F I S)
      → AreAmong (keys xs) (keys f.informers)
      → IsWellFormed f
      → IsWellFormed (start_loop stop xs f)
  unfolding start_loop
  start_loop-IsWellFormed stop [] f a h = h
  start_loop-IsWellFormed stop ((kind, informer) ∷ rest) f (k, a) h =
      start_loop-IsWellFormed stop rest (start_round stop kind f)
        (subst (λ m. AreAmong (keys rest) (keys m)) (sym (informers-start_round stop kind f)) a)
        (start_round-IsWellFormed stop kind f k h)

  pub start_down :
      (stop : S) (f : SharedInformerFactory C W F I S) → f.shutting_down ≡ true → start stop f ≡ f
  unfolding start
  start_down stop f e = ap (λ b. if b then f else start_loop stop f.informers f) e

  pub start_up :
      (stop : S) (f : SharedInformerFactory C W F I S)
      → f.shutting_down ≡ false
      → start stop f ≡ start_loop stop f.informers f
  unfolding start
  start_up stop f e = ap (λ b. if b then f else start_loop stop f.informers f) e

  informers-start_loop :
      (stop : S) (xs : List (ℕ × I)) (f : SharedInformerFactory C W F I S)
      → (start_loop stop xs f).informers ≡ f.informers
  unfolding start_loop
  informers-start_loop stop [] f = refl
  informers-start_loop stop ((kind, informer) ∷ rest) f =
      informers-start_loop stop rest (start_round stop kind f) ∙ informers-start_round stop kind f

  pub informers-start :
      (stop : S) (f : SharedInformerFactory C W F I S) → (start stop f).informers ≡ f.informers
  informers-start stop f = elim (Bool-cases f.shutting_down) [
    | inl e ↦ ap (λ (g : SharedInformerFactory C W F I S). g.informers) (start_down stop f e)
    | inr e ↦
        ap (λ (g : SharedInformerFactory C W F I S). g.informers) (start_up stop f e)
        ∙ informers-start_loop stop f.informers f
  ]

  pub start-IsWellFormed :
      (stop : S) (f : SharedInformerFactory C W F I S)
      → IsWellFormed f
      → IsWellFormed (start stop f)
  start-IsWellFormed stop f h = elim (Bool-cases f.shutting_down) [
    | inl e ↦ subst IsWellFormed (sym (start_down stop f e)) h
    | inr e ↦
        subst IsWellFormed (sym (start_up stop f e))
          (start_loop-IsWellFormed stop f.informers f (AreAmong-refl (keys f.informers)) h)
  ]

  started-start_round :
      (stop : S) (kind : ℕ) (f : SharedInformerFactory C W F I S) (ks : List ℕ)
      → AreAmong ks f.started
      → AreAmong ks (start_round stop kind f).started
  started-start_round stop kind f ks h = elim (Bool-cases (member kind f.started)) [
    | inl e ↦ rw (start_round_old stop kind f e) h
    | inr e ↦ rw (start_round_new stop kind f e) (AreAmong-cons kind ks f.started h)
  ]

  started-start_loop :
      (stop : S) (xs : List (ℕ × I)) (f : SharedInformerFactory C W F I S) (ks : List ℕ)
      → AreAmong ks f.started
      → AreAmong ks (start_loop stop xs f).started
  unfolding start_loop
  started-start_loop stop [] f ks h = h
  started-start_loop stop ((kind, informer) ∷ rest) f ks h =
      started-start_loop stop rest (start_round stop kind f) ks
        (started-start_round stop kind f ks h)

  start_loop-started :
      (stop : S) (xs : List (ℕ × I)) (f : SharedInformerFactory C W F I S)
      → AreAmong (keys xs) (start_loop stop xs f).started
  unfolding start_loop
  start_loop-started stop [] f = tt
  start_loop-started stop ((kind, informer) ∷ rest) f =
      let g = start_round stop kind f in
      (
        (started-start_loop stop rest g (kind ∷ []) (member-start_round stop kind f, tt)).0,
        start_loop-started stop rest g,
      )

  -- All of the informers are started already: nothing happens.
  start_loop_old :
      (stop : S) (xs : List (ℕ × I)) (f : SharedInformerFactory C W F I S)
      → AreAmong (keys xs) f.started
      → start_loop stop xs f ≡ f
  unfolding start_loop
  start_loop_old stop [] f h = refl
  start_loop_old stop ((kind, informer) ∷ rest) f (h, hs) =
      ap (start_loop stop rest) (start_round_old stop kind f h) ∙ start_loop_old stop rest f hs

  shutting_down-start_loop :
      (stop : S) (xs : List (ℕ × I)) (f : SharedInformerFactory C W F I S)
      → (start_loop stop xs f).shutting_down ≡ f.shutting_down
  unfolding start_loop
  shutting_down-start_loop stop [] f = refl
  shutting_down-start_loop stop ((kind, informer) ∷ rest) f =
      shutting_down-start_loop stop rest (start_round stop kind f)
      ∙ elim (Bool-cases (member kind f.started)) [
        | inl e ↦
            ap (λ (g : SharedInformerFactory C W F I S). g.shutting_down)
              (start_round_old stop kind f e)
        | inr e ↦
            ap (λ (g : SharedInformerFactory C W F I S). g.shutting_down)
              (start_round_new stop kind f e)
      ]

  pub shutting_down-start :
      (stop : S) (f : SharedInformerFactory C W F I S)
      → (start stop f).shutting_down ≡ f.shutting_down
  shutting_down-start stop f = elim (Bool-cases f.shutting_down) [
    | inl e ↦ ap (λ (g : SharedInformerFactory C W F I S). g.shutting_down) (start_down stop f e)
    | inr e ↦
        ap (λ (g : SharedInformerFactory C W F I S). g.shutting_down) (start_up stop f e)
        ∙ shutting_down-start_loop stop f.informers f
  ]

  -- Where a factory does not shut down: after Start every informer in it is started.
  pub start-started :
      (stop : S) (f : SharedInformerFactory C W F I S)
      → f.shutting_down ≡ false
      → AreAmong (keys f.informers) (start stop f).started
  start-started stop f e =
      subst (λ (g : SharedInformerFactory C W F I S). AreAmong (keys f.informers) g.started)
        (sym (start_up stop f e)) (start_loop-started stop f.informers f)

  -- A second Start, with whatever stop channel, changes nothing.
  pub start-start :
      (stop later : S) (f : SharedInformerFactory C W F I S)
      → start later (start stop f) ≡ start stop f
  start-start stop later f = elim (Bool-cases f.shutting_down) [
    | inl e ↦
        start_down later (start stop f)
          (ap (λ (g : SharedInformerFactory C W F I S). g.shutting_down) (start_down stop f e) ∙ e)
    | inr e ↦
        let g = start_loop stop f.informers f in
        let again : start later g ≡ g =
          start_up later g (shutting_down-start_loop stop f.informers f ∙ e)
          ∙ start_loop_old later g.informers g (
              subst (λ m. AreAmong (keys m) g.started)
                (sym (informers-start_loop stop f.informers f))
                (start_loop-started stop f.informers f)) in
        subst (λ x. start later x ≡ x) (sym (start_up stop f e)) again
  ]
