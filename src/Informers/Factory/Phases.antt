-- ===== src/Informers/Factory/Phases.antt =====
-- The phases of an informer, what is done to a factory, and what that does to the phases.
use cloud_native_tour.Common.{
  ℕ, zero, suc, ◌<◌, ◌≡◌, refl, sym, ap, ◌∙◌, List, [], ◌∷◌, Bool, true, false, ◌==◌, ==_iff,
  if◌then◌else◌, Bool-cases, inl, inr, ◌⊎◌, length, arith,
}
use mathlib.Core.Path.{subst}
use cloud_native_tour.Informers.Maps.{member, keys, AreDistinct, member_self}
use cloud_native_tour.Informers.Factory.{remove_at}

pub data Phase : Type 0 where
  unasked : Phase
  waiting : Phase
  active : Phase
  over : Phase

-- The abstract factory: the phase of every type's informer.
pub record Lifecycle : Type 0 where
  pub down : Bool
  pub phase : ℕ → Phase

-- What is done to a factory: Start, InformerFor for a type, Shutdown, or the end of the goroutine of a
-- type's informer.
pub data Event : Type 0 where
  starts : Event
  asks : ℕ → Event
  shuts : Event
  ends : ℕ → Event

abbrev pub launch : Phase → Phase
launch unasked = unasked
launch waiting = active
launch active = active
launch over = over

abbrev pub make : Phase → Phase
make unasked = waiting
make waiting = waiting
make active = active
make over = over

abbrev pub end : Phase → Phase
end unasked = unasked
end waiting = waiting
end active = over
end over = over

-- Start launches whatever waits, unless the factory shuts down; the other events change one type's
-- informer, or the factory.
abbrev pub act : Event → Lifecycle → Lifecycle
act starts a = record a { phase = λ k. if a.down then a.phase k else launch (a.phase k) }
act (asks j) a = record a { phase = λ k. if j == k then make (a.phase k) else a.phase k }
act shuts a = record a { down = true }
act (ends j) a = record a { phase = λ k. if j == k then end (a.phase k) else a.phase k }

-- From the new factory; the last event stands first.
abbrev pub replay : List Event → Lifecycle
replay [] = record { down = false; phase = λ k. unasked }
replay (e ∷ es) = act e (replay es)

pub view_ext : {a b : Lifecycle} → a.down ≡ b.down → ((k : ℕ) → a.phase k ≡ b.phase k) → a ≡ b
view_ext e h = λ i. record { down = e i; phase = λ k. h k i }

-- From whether it runs, whether it was started and whether it was made.
abbrev pub phase_of : Bool → Bool → Bool → Phase
phase_of true s m = active
phase_of false true m = over
phase_of false false true = waiting
phase_of false false false = unasked

-- What Start may do to a phase, by any number of rounds.
abbrev pub MayLaunch : Phase → Phase → Type 0
MayLaunch p q = (p ≡ q) ⊎ ((p ≡ waiting) × (q ≡ active))

pub MayLaunch-trans : {p q r : Phase} → MayLaunch p q → MayLaunch q r → MayLaunch p r
MayLaunch-trans (inl e) (inl e') = inl (e ∙ e')
MayLaunch-trans (inl e) (inr (a, b)) = inr (e ∙ a, b)
MayLaunch-trans (inr (a, b)) (inl e) = inr (a, sym e ∙ b)
MayLaunch-trans (inr (a, b)) (inr (c, d)) = inr (a, d)

pub MayLaunch-launch : (p q : Phase) → MayLaunch p q → ¬ (q ≡ waiting) → q ≡ launch p
MayLaunch-launch unasked q (inl e) n = sym e
MayLaunch-launch waiting q (inl e) n = absurd (n (sym e))
MayLaunch-launch active q (inl e) n = sym e
MayLaunch-launch over q (inl e) n = sym e
MayLaunch-launch p q (inr (e, e')) n = e' ∙ ap launch (sym e)

-- What waits was made and not started.
pub waiting_lem : (r s m : Bool) → phase_of r s m ≡ waiting → (s ≡ false) × (m ≡ true)
waiting_lem true s m e = absurd (ground (arith, e))
waiting_lem false true m e = absurd (ground (arith, e))
waiting_lem false false true e = (refl, refl)
waiting_lem false false false e = absurd (ground (arith, e))

pub make-phase_of :
    (r s b m : Bool)
    → phase_of r s (if b then true else m) ≡ (if b then make (phase_of r s m) else phase_of r s m)
make-phase_of r s false m = refl
make-phase_of true s true m = refl
make-phase_of false true true m = refl
make-phase_of false false true true = refl
make-phase_of false false true false = refl

pub make_made : (b m : Bool) → (b ≡ true → m ≡ true) → m ≡ (if b then true else m)
make_made true m h = h refl
make_made false m h = refl

pub end-phase_of :
    (r s b m : Bool)
    → (b ≡ true → (r ≡ true) × (s ≡ true))
    → phase_of (if b then false else r) s m ≡ (if b then end (phase_of r s m) else phase_of r s m)
end-phase_of r s false m h = refl
end-phase_of true true true m h = refl
end-phase_of true false true m h = absurd (ground (arith, (h refl).1))
end-phase_of false s true m h = absurd (ground (arith, (h refl).0))

module _ {A : Type 0} where
  -- The type at a place of the list, of which there is none past the end.
  abbrev pub kind_at : ℕ → List (ℕ × A) → ℕ
  kind_at n [] = 0
  kind_at zero ((j, v) ∷ m) = j
  kind_at (suc n) ((j, v) ∷ m) = kind_at n m

  pub member-kind_at :
      (n : ℕ) (m : List (ℕ × A)) → n < length m → member (kind_at n m) (keys m) ≡ true
  unfolding member
  member-kind_at n [] p = absurd (omega arith)
  member-kind_at zero ((j, v) ∷ m) p = member_self j (keys m)
  member-kind_at (suc n) ((j, v) ∷ m) p = ground (arith, member-kind_at n m (omega arith))

  pub member-remove_at :
      (n k : ℕ) (m : List (ℕ × A))
      → n < length m
      → AreDistinct (keys m)
      → member k (keys (remove_at n m)) ≡ (if kind_at n m == k then false else member k (keys m))
  unfolding remove_at member
  member-remove_at n k [] p h = absurd (omega arith)
  member-remove_at zero k ((j, v) ∷ m) p (h, hs) = elim (Bool-cases (j == k)) [
    | inl e ↦ rw e (subst (λ i. member i (keys m) ≡ false) ((==_iff j k).0 e) h)
    | inr e ↦ rw e refl
  ]
  member-remove_at (suc n) k ((j, v) ∷ m) p (h, hs) =
      let rest = member-remove_at n k m (omega arith) hs in
      elim (Bool-cases (j == k)) [
        | inl e ↦ elim (Bool-cases (kind_at n m == k)) [
          | inl e' ↦
              let same : j ≡ kind_at n m = (==_iff j k).0 e ∙ sym ((==_iff (kind_at n m) k).0 e') in
              absurd (
                ground
                  (arith, h, ap (λ i. member i (keys m)) same, member-kind_at n m (omega arith)))
          | inr e' ↦ rw (e, e') refl
        ]
        | inr e ↦ rw e rest
      ]
