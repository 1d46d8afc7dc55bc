-- ===== src/Informers/Factory/Lifecycle.antt =====
-- The factory refines the abstract one, which the calls of Start, InformerFor and Shutdown and the ends
-- of the goroutines act on.
use cloud_native_tour.Common.{
  ℕ, ℤ, ◌≡◌, refl, sym, ap, ◌∙◌, List, [], ◌∷◌, Option, Option-cases, none, some, true, false, ◌==◌,
  ==_iff, Bool-cases, inl, inr, arith,
}
use mathlib.Core.Path.{subst}
use cloud_native_tour.Informers.Maps.{
  find, member, keys, AreAmong, AreAmong-refl, member-keys-put, member-among, not_among,
  member-find,
}
use cloud_native_tour.Informers.Factory.{
  SharedInformerFactory, start, start_loop, start_round, finish, shutdown,
  new_shared_informer_factory, new_shared_informer_factory_with_options, apply_options,
}
use cloud_native_tour.Informers.Factory.Phases.{
  Phase, waiting, Lifecycle, Event, starts, asks, shuts, ends, launch, act, replay, view_ext,
  phase_of, MayLaunch, MayLaunch-trans, MayLaunch-launch, waiting_lem, make-phase_of, make_made,
  end-phase_of, kind_at, member-kind_at, member-remove_at,
}
use cloud_native_tour.Informers.Factory.Start.{
  IsWellFormed, start_round_old, start_round_new, start_round-IsWellFormed, informers-start_round,
  start_down, start_up, start-started, informers-start, shutting_down-start,
}
use cloud_native_tour.Informers.Factory.Steps.{
  Step, started, asked, shut, ended, Reach, here, next, informer_for-chosen, made,
  Reach-IsWellFormed,
}

module _ {C W F I S : Type 0} where
  abbrev pub phase_in : SharedInformerFactory C W F I S → ℕ → Phase
  phase_in f k =
      phase_of (member k (keys f.running)) (member k f.started) (member k (keys f.informers))

  abbrev pub view : SharedInformerFactory C W F I S → Lifecycle
  view f = record { down = f.shutting_down; phase = phase_in f }

  phase_in_made :
      (k : ℕ) (f : SharedInformerFactory C W F I S)
      → IsWellFormed f
      → member k (keys f.informers) ≡ true
      → member k f.started ≡ false
      → phase_in f k ≡ waiting
  phase_in_made k f h m s =
      rw (m, s, not_among k (keys f.running) f.started h.running_started s) refl

  round-MayLaunch :
      (stop : S) (j k : ℕ) (f : SharedInformerFactory C W F I S)
      → IsWellFormed f
      → member j (keys f.informers) ≡ true
      → MayLaunch (phase_in f k) (phase_in (start_round stop j f) k)
  unfolding member
  round-MayLaunch stop j k f h m = elim (Bool-cases (member j f.started)) [
    | inl old ↦ rw (start_round_old stop j f old) (inl refl)
    | inr new ↦ rw (start_round_new stop j f new) (elim (Bool-cases (j == k)) [
      | inl e ↦
          let m' = subst (λ n. member n (keys f.informers) ≡ true) ((==_iff j k).0 e) m in
          let s' = subst (λ n. member n f.started ≡ false) ((==_iff j k).0 e) new in
          inr (phase_in_made k f h m' s', rw e refl)
      | inr e ↦ inl (rw e refl)
    ])
  ]

  loop-MayLaunch :
      (stop : S) (xs : List (ℕ × I)) (k : ℕ) (f : SharedInformerFactory C W F I S)
      → IsWellFormed f
      → AreAmong (keys xs) (keys f.informers)
      → MayLaunch (phase_in f k) (phase_in (start_loop stop xs f) k)
  unfolding start_loop
  loop-MayLaunch stop [] k f h a = inl refl
  loop-MayLaunch stop ((j, i) ∷ rest) k f h (m, a) =
      let g = start_round stop j f in
      MayLaunch-trans (round-MayLaunch stop j k f h m) (
        loop-MayLaunch stop rest k g (start_round-IsWellFormed stop j f m h)
          (subst (λ r. AreAmong (keys rest) (keys r)) (sym (informers-start_round stop j f)) a))

module _ {C W F I S : Type 0} (set_transform : I → Option F → I) where
  abbrev pub event : {f g : SharedInformerFactory C W F I S} → Step set_transform f g → Event
  event (started stop f) = starts
  event (asked kind new_func f) = asks kind
  event (shut f) = shuts
  event (ended k f p) = ends (kind_at k f.running)

  abbrev pub events : {f g : SharedInformerFactory C W F I S} → Reach set_transform f g → List Event
  events here = []
  events (next r s) = event s ∷ events r

  start-phase :
      (stop : S) (f : SharedInformerFactory C W F I S) (k : ℕ)
      → IsWellFormed f
      → f.shutting_down ≡ false
      → phase_in (start stop f) k ≡ launch (phase_in f k)
  start-phase stop f k h e =
      let g = start stop f in
      let may : MayLaunch (phase_in f k) (phase_in g k) =
        subst (λ (g : SharedInformerFactory C W F I S). MayLaunch (phase_in f k) (phase_in g k))
          (sym (start_up stop f e))
          (loop-MayLaunch stop f.informers k f h (AreAmong-refl (keys f.informers))) in
      MayLaunch-launch (phase_in f k) (phase_in g k) may (λ waits.
        let (fresh, known) =
          waiting_lem (member k (keys g.running)) (member k g.started) (member k (keys g.informers))
            waits in
        let known' : member k (keys f.informers) ≡ true =
          subst (λ l. member k (keys l) ≡ true) (informers-start stop f) known in
        absurd (
          ground (
            arith,
            fresh,
            member-among k (keys f.informers) g.started (start-started stop f e) known',
          )))

  Step-phase :
      {f g : SharedInformerFactory C W F I S} (s : Step set_transform f g)
      → IsWellFormed f
      → (k : ℕ) → phase_in g k ≡ (act (event s) (view f)).phase k
  unfolding shutdown finish
  Step-phase (started stop f) h k = elim (Bool-cases f.shutting_down) [
    | inl e ↦
        ap (λ (g : SharedInformerFactory C W F I S). phase_in g k) (start_down stop f e) ∙ rw e refl
    | inr e ↦ start-phase stop f k h e ∙ rw e refl
  ]
  Step-phase (asked j new_func f) h k =
      let r = member k (keys f.running) in
      let s = member k f.started in
      let m = member k (keys f.informers) in
      elim (Option-cases (find j f.informers)) [
        | inl e ↦
            ap (λ (g : I × SharedInformerFactory C W F I S). phase_in g.1 k)
              (informer_for-chosen set_transform j new_func f none e)
            ∙ ap (phase_of r s) (member-keys-put k j (made set_transform j new_func f) f.informers)
            ∙ make-phase_of r s (j == k) m
        | inr (i, e) ↦
            let known : (j == k) ≡ true → m ≡ true = λ same.
              subst (λ n. member n (keys f.informers) ≡ true) ((==_iff j k).0 same)
                (member-find j i f.informers e) in
            ap (λ (g : I × SharedInformerFactory C W F I S). phase_in g.1 k)
              (informer_for-chosen set_transform j new_func f (some i) e)
            ∙ ap (phase_of r s) (make_made (j == k) m known)
            ∙ make-phase_of r s (j == k) m
      ]
  Step-phase (shut f) h k = refl
  Step-phase (ended n f p) h k =
      let j = kind_at n f.running in
      let r = member k (keys f.running) in
      let s = member k f.started in
      let m = member k (keys f.informers) in
      ap (λ r'. phase_of r' s m) (member-remove_at n k f.running p h.running_distinct)
      ∙ end-phase_of r s (j == k) m (λ e.
        let runs : r ≡ true =
          subst (λ i. member i (keys f.running) ≡ true) ((==_iff j k).0 e)
            (member-kind_at n f.running p) in
        (runs, member-among k (keys f.running) f.started h.running_started runs))

  Step-down :
      {f g : SharedInformerFactory C W F I S} (s : Step set_transform f g)
      → g.shutting_down ≡ (act (event s) (view f)).down
  unfolding shutdown finish
  Step-down (started stop f) = shutting_down-start stop f
  Step-down (asked j new_func f) = elim (Option-cases (find j f.informers)) [
    | inl e ↦
        ap (λ (g : I × SharedInformerFactory C W F I S). g.1.shutting_down)
          (informer_for-chosen set_transform j new_func f none e)
    | inr (i, e) ↦
        ap (λ (g : I × SharedInformerFactory C W F I S). g.1.shutting_down)
          (informer_for-chosen set_transform j new_func f (some i) e)
  ]
  Step-down (shut f) = refl
  Step-down (ended n f p) = refl

  Step-act :
      {f g : SharedInformerFactory C W F I S} (s : Step set_transform f g)
      → IsWellFormed f
      → view g ≡ act (event s) (view f)
  Step-act s h = view_ext (Step-down s) (Step-phase s h)

  -- Whatever calls of Start, InformerFor and Shutdown are made on a new factory, and whichever
  -- goroutines end in between, the factory is seen as the abstract one on which the same events act,
  -- from the first to the last: InformerFor of a type makes its informer where there was none, Start
  -- launches all that wait unless the factory shuts down, the end of a goroutine ends its type's
  -- informer, Shutdown sets the flag, and no event does anything else to the phase of a type or to the
  -- flag.
  pub Reach-replay :
      (client : C) (resync : ℤ) (f : SharedInformerFactory C W F I S)
      (r : Reach set_transform (new_shared_informer_factory client resync) f)
      → view f ≡ replay (events r)
  unfolding new_shared_informer_factory new_shared_informer_factory_with_options apply_options
      member
  Reach-replay client resync f here = refl
  Reach-replay client resync f (next {g = m} r s) =
      Step-act s (Reach-IsWellFormed set_transform client resync m r)
      ∙ ap (act (event s)) (Reach-replay client resync m r)
