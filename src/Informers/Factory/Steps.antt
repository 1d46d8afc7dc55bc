-- ===== src/Informers/Factory/Steps.antt =====
-- The factory over any sequence of calls and of goroutines that end.
use cloud_native_tour.Common.{
  ℕ, ◌<◌, ℤ, ◌≡◌, refl, sym, ap, ◌∙◌, Option, none, some, Option-cases, ==_iff, inl, inr, length,
  arith,
}
use mathlib.Core.Path.{subst}
use cloud_native_tour.Informers.Maps.{
  find, put, find-put, find-put_missing, AreAmong-put, put-AreDistinct,
}
use cloud_native_tour.Informers.Factory.{
  SharedInformerFactory, new_shared_informer_factory, new_shared_informer_factory_with_options,
  apply_options, start, finish, shutdown, resync_period, informer_for,
}
use cloud_native_tour.Informers.Factory.Removal.{
  length-remove_at, keys-remove_at, remove_at-AreDistinct,
}
use cloud_native_tour.Informers.Factory.Start.{IsWellFormed, start-IsWellFormed, informers-start}

module _ {C W F I S : Type 0} (set_transform : I → Option F → I) where
  -- A method called by anyone, or a goroutine that ends.
  pub data Step : SharedInformerFactory C W F I S → SharedInformerFactory C W F I S → Type 0 where
    started : (stop : S) (f : SharedInformerFactory C W F I S) → Step f (start stop f)
    asked :
        (kind : ℕ) (new_func : C → ℤ → I) (f : SharedInformerFactory C W F I S)
        → Step f (informer_for set_transform kind new_func f).1
    shut : (f : SharedInformerFactory C W F I S) → Step f (shutdown f)
    ended :
        (k : ℕ) (f : SharedInformerFactory C W F I S) → k < length f.running → Step f (finish k f)

  pub data Reach (f : SharedInformerFactory C W F I S)
      : SharedInformerFactory C W F I S → Type 0 where
    here : Reach f f
    next : {g h : SharedInformerFactory C W F I S} → Reach f g → Step g h → Reach f h

  abbrev pub made : ℕ → (C → ℤ → I) → SharedInformerFactory C W F I S → I
  made kind new_func f = set_transform (new_func f.client (resync_period kind f)) f.transform

  abbrev pub with_made :
      ℕ → (C → ℤ → I) → SharedInformerFactory C W F I S → SharedInformerFactory C W F I S
  with_made kind new_func f = record f { informers = put kind (made kind new_func f) f.informers }

  -- What InformerFor does with what the map holds.
  abbrev pub chosen :
      ℕ
      → (C → ℤ → I)
      → SharedInformerFactory C W F I S
      → Option I
      → I × SharedInformerFactory C W F I S
  chosen kind new_func f none = (made kind new_func f, with_made kind new_func f)
  chosen kind new_func f (some i) = (i, f)

  pub informer_for-chosen :
      (kind : ℕ) (new_func : C → ℤ → I) (f : SharedInformerFactory C W F I S) (o : Option I)
      → find kind f.informers ≡ o
      → informer_for set_transform kind new_func f ≡ chosen kind new_func f o
  unfolding informer_for
  informer_for-chosen kind new_func f none e = rw (e, informer_for) refl
  informer_for-chosen kind new_func f (some i) e = rw (e, informer_for) refl

  -- The informer that is there for the type, or else the new function's, called with the type's own
  -- resync period or else the default one, and with the factory's transform set.
  abbrev pub given : ℕ → (C → ℤ → I) → SharedInformerFactory C W F I S → I
  given kind new_func f = elim (find kind f.informers) [
    | none ↦
        set_transform
          (new_func f.client
            (elim (find kind f.custom_resync) [ none ↦ f.default_resync | some d ↦ d ]))
          f.transform
    | some i ↦ i
  ]

  pub informer_for-given :
      (kind : ℕ) (new_func : C → ℤ → I) (f : SharedInformerFactory C W F I S)
      → (informer_for set_transform kind new_func f).0 ≡ given kind new_func f
  unfolding resync_period
  informer_for-given kind new_func f = elim (Option-cases (find kind f.informers)) [
    | inl e ↦
        ap (λ (r : I × SharedInformerFactory C W F I S). r.0)
          (informer_for-chosen kind new_func f none e)
        ∙ rw (e, given) refl
    | inr (i, e) ↦
        ap (λ (r : I × SharedInformerFactory C W F I S). r.0)
          (informer_for-chosen kind new_func f (some i) e)
        ∙ rw (e, given) refl
  ]

  -- What InformerFor gives is stored for the type.
  pub find-informer_for :
      (kind : ℕ) (new_func : C → ℤ → I) (f : SharedInformerFactory C W F I S)
      → find kind (informer_for set_transform kind new_func f).1.informers
        ≡ some (informer_for set_transform kind new_func f).0
  find-informer_for kind new_func f = elim (Option-cases (find kind f.informers)) [
    | inl e ↦
        subst (λ (r : I × SharedInformerFactory C W F I S). find kind r.1.informers ≡ some r.0)
          (sym (informer_for-chosen kind new_func f none e))
          (find-put kind kind (made kind new_func f) f.informers
            ∙ rw ((==_iff kind kind).1 refl) refl)
    | inr (i, e) ↦
        subst (λ (r : I × SharedInformerFactory C W F I S). find kind r.1.informers ≡ some r.0)
          (sym (informer_for-chosen kind new_func f (some i) e)) e
  ]

  Step-find :
      (k : ℕ) (i : I) {f g : SharedInformerFactory C W F I S}
      → Step f g
      → find k f.informers ≡ some i
      → find k g.informers ≡ some i
  unfolding shutdown finish
  Step-find k i (started stop f) e = ap (find k) (informers-start stop f) ∙ e
  Step-find k i (asked j new_func f) e = elim (Option-cases (find j f.informers)) [
    | inl absent ↦
        subst (λ (r : I × SharedInformerFactory C W F I S). find k r.1.informers ≡ some i)
          (sym (informer_for-chosen j new_func f none absent))
          (find-put_missing k j (made j new_func f) i f.informers absent e)
    | inr (i', there) ↦
        subst (λ (r : I × SharedInformerFactory C W F I S). find k r.1.informers ≡ some i)
          (sym (informer_for-chosen j new_func f (some i') there)) e
  ]
  Step-find k i (shut f) e = e
  Step-find k i (ended n f p) e = e

  -- No sequence of steps removes or replaces an informer.
  pub Reach-find :
      (k : ℕ) (i : I) {f g : SharedInformerFactory C W F I S}
      → Reach f g
      → find k f.informers ≡ some i
      → find k g.informers ≡ some i
  Reach-find k i here e = e
  Reach-find k i (next r s) e = Step-find k i s (Reach-find k i r e)

  -- InformerFor gives the informer that the factory has for the type, or else the new function's,
  -- called with the type's own resync period or else the default one, and with the factory's transform
  -- set. After it, whatever calls of Start, InformerFor and Shutdown are made, and whichever
  -- goroutines end, InformerFor of the same type, with whatever new function, gives the same informer
  -- and changes nothing.
  pub informer_for-informer_for :
      (kind : ℕ) (new_func later : C → ℤ → I) (f h : SharedInformerFactory C W F I S)
      → Reach (informer_for set_transform kind new_func f).1 h
      → ((informer_for set_transform kind new_func f).0 ≡ elim (find kind f.informers) [
        | none ↦
            set_transform
              (new_func f.client
                (elim (find kind f.custom_resync) [ none ↦ f.default_resync | some d ↦ d ]))
              f.transform
        | some i ↦ i
      ])
        × (informer_for set_transform kind later h
            ≡ ((informer_for set_transform kind new_func f).0, h))
  informer_for-informer_for kind new_func later f h r =
      let i = (informer_for set_transform kind new_func f).0 in
      (
        informer_for-given kind new_func f,
        informer_for-chosen kind later h (some i)
            (Reach-find kind i r (find-informer_for kind new_func f)),
      )

  informer_for-IsWellFormed :
      (kind : ℕ) (new_func : C → ℤ → I) (f : SharedInformerFactory C W F I S)
      → IsWellFormed f
      → IsWellFormed (informer_for set_transform kind new_func f).1
  informer_for-IsWellFormed kind new_func f h = elim (Option-cases (find kind f.informers)) [
    | inl e ↦
        let i = made kind new_func f in
        let g : IsWellFormed (with_made kind new_func f) = record {
          informers_distinct = put-AreDistinct kind i f.informers h.informers_distinct;
          started_distinct = h.started_distinct;
          started_known = AreAmong-put f.started kind i f.informers h.started_known;
          running_distinct = h.running_distinct;
          running_started = h.running_started;
          counted = h.counted;
        } in
        subst (λ (r : I × SharedInformerFactory C W F I S). IsWellFormed r.1)
          (sym (informer_for-chosen kind new_func f none e)) g
    | inr (i, e) ↦
        subst (λ (r : I × SharedInformerFactory C W F I S). IsWellFormed r.1)
          (sym (informer_for-chosen kind new_func f (some i) e)) h
  ]

  finish-IsWellFormed :
      (k : ℕ) (f : SharedInformerFactory C W F I S)
      → k < length f.running
      → IsWellFormed f
      → IsWellFormed (finish k f)
  unfolding finish
  finish-IsWellFormed k f p h = record {
    informers_distinct = h.informers_distinct;
    started_distinct = h.started_distinct;
    started_known = h.started_known;
    running_distinct = remove_at-AreDistinct k f.running h.running_distinct;
    running_started = keys-remove_at k f.running f.started h.running_started;
    counted = omega (arith, h.counted, length-remove_at k f.running p);
  }

  shutdown-IsWellFormed :
      (f : SharedInformerFactory C W F I S) → IsWellFormed f → IsWellFormed (shutdown f)
  unfolding shutdown
  shutdown-IsWellFormed f h = record {
    informers_distinct = h.informers_distinct;
    started_distinct = h.started_distinct;
    started_known = h.started_known;
    running_distinct = h.running_distinct;
    running_started = h.running_started;
    counted = h.counted;
  }

  pub Step-IsWellFormed :
      {f g : SharedInformerFactory C W F I S} → Step f g → IsWellFormed f → IsWellFormed g
  Step-IsWellFormed (started stop f) h = start-IsWellFormed stop f h
  Step-IsWellFormed (asked kind new_func f) h = informer_for-IsWellFormed kind new_func f h
  Step-IsWellFormed (shut f) h = shutdown-IsWellFormed f h
  Step-IsWellFormed (ended k f p) h = finish-IsWellFormed k f p h

  Reach-IsWellFormed_from :
      {f g : SharedInformerFactory C W F I S} → Reach f g → IsWellFormed f → IsWellFormed g
  Reach-IsWellFormed_from here h = h
  Reach-IsWellFormed_from (next r s) h = Step-IsWellFormed s (Reach-IsWellFormed_from r h)

  new-IsWellFormed :
      (client : C) (resync : ℤ)
      → IsWellFormed (new_shared_informer_factory {W = W} {F = F} {I = I} {S = S} client resync)
  unfolding new_shared_informer_factory new_shared_informer_factory_with_options apply_options
  new-IsWellFormed client resync = record {
    informers_distinct = tt;
    started_distinct = tt;
    started_known = tt;
    running_distinct = tt;
    running_started = tt;
    counted = refl;
  }

  -- Whatever calls of Start, InformerFor and Shutdown are made on a new factory, and whichever
  -- goroutines end in between: no type has two informers, none is started twice, only informers that
  -- were made are started, none runs twice, only started ones run, and the wait group counts those
  -- that run.
  pub Reach-IsWellFormed :
      (client : C) (resync : ℤ) (f : SharedInformerFactory C W F I S)
      → Reach (new_shared_informer_factory client resync) f
      → IsWellFormed f
  Reach-IsWellFormed client resync f r = Reach-IsWellFormed_from r (new-IsWellFormed client resync)
