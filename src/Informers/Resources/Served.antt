-- ===== src/Informers/Resources/Served.antt =====
-- The switch of ForResource: which of two versions it asks.
use cloud_native_tour.Common.{
  ◌≡◌, refl, sym, ◌∙◌, Option, none, some, Bool, true, false, Bool-cases, inl, inr, ◌⊎◌, text_eq,
  text_eq_iff, text_eq_refl, arith,
}
use mathlib.Core.Path.{subst}
use cloud_native_tour.Informers.Resources.{
  GroupVersionResource, GenericInformer, same_resource, generic, choose_informer,
}

-- Which of two versions serves a resource, if one does.
pub data Serves {V : Type 0} (here_at there_at : GroupVersionResource) (first second : V)
    : GroupVersionResource → Option V → Type 0 where
  serves_first : Serves here_at there_at first second here_at (some first)
  serves_second : Serves here_at there_at first second there_at (some second)
  serves_none :
      {r : GroupVersionResource}
      → ¬ (r ≡ here_at)
      → ¬ (r ≡ there_at)
      → Serves here_at there_at first second r none

same_resource-eq : (r s : GroupVersionResource) → same_resource r s ≡ true → r ≡ s
unfolding same_resource
same_resource-eq r s e = elim (Bool-cases (text_eq r.group s.group)) [
  | inl g ↦ elim (Bool-cases (text_eq r.version s.version)) [
    | inl v ↦ elim (Bool-cases (text_eq r.resource s.resource)) [
      | inl n ↦
          let g' = (text_eq_iff r.group s.group).0 g in
          let v' = (text_eq_iff r.version s.version).0 v in
          let n' = (text_eq_iff r.resource s.resource).0 n in
          λ i. record { group = g' i; version = v' i; resource = n' i }
      | inr n ↦ absurd (ground (arith, e, g, v, n))
    ]
    | inr v ↦ absurd (ground (arith, e, g, v))
  ]
  | inr g ↦ absurd (ground (arith, e, g))
]

same_resource_ne : (r s : GroupVersionResource) → ¬ (r ≡ s) → same_resource r s ≡ false
same_resource_ne r s n = elim (Bool-cases (same_resource r s)) [
  | inl e ↦ absurd (n (same_resource-eq r s e))
  | inr e ↦ e
]

same_resource_self : (r : GroupVersionResource) → same_resource r r ≡ true
unfolding same_resource
same_resource_self r =
    rw (text_eq_refl r.group, text_eq_refl r.version, text_eq_refl r.resource) refl

module _ {G I E : Type 0} (no_informer : GroupVersionResource → E) (first second : G → I × G) where
  -- What the switch does, from which case it takes.
  abbrev answer : GroupVersionResource → Bool → Bool → G → (E ⊎ GenericInformer I) × G
  answer r true b f = generic r (first f)
  answer r false true f = generic r (second f)
  answer r false false f = (inl (no_informer r), f)

  choose_informer-answer :
      (at to r : GroupVersionResource) (f : G)
      → choose_informer no_informer at to first second r f
        ≡ answer r (same_resource r at) (same_resource r to) f
  unfolding choose_informer
  choose_informer-answer at to r f = elim (Bool-cases (same_resource r at)) [
    | inl e ↦ rw e refl
    | inr e ↦
        rw e (elim (Bool-cases (same_resource r to)) [ inl e' ↦ rw e' refl | inr e' ↦ rw e' refl ])
  ]

  answer_keeps :
      (Holds : G → Type 0)
      → ((f : G) → Holds f → Holds (first f).1)
      → ((f : G) → Holds f → Holds (second f).1)
      → (r : GroupVersionResource) (a b : Bool) (f : G) → Holds f
      → Holds (answer r a b f).1
  answer_keeps Holds h k r true b f holds = h f holds
  answer_keeps Holds h k r false true f holds = k f holds
  answer_keeps Holds h k r false false f holds = holds

  -- Whatever holds of the factory asked, and after either way to ask, holds after the switch.
  pub choose_informer_keeps :
      (Holds : G → Type 0)
      → ((f : G) → Holds f → Holds (first f).1)
      → ((f : G) → Holds f → Holds (second f).1)
      → (at to r : GroupVersionResource) (f : G) → Holds f
      → Holds (choose_informer no_informer at to first second r f).1
  choose_informer_keeps Holds h k at to r f holds =
      subst (λ (p : (E ⊎ GenericInformer I) × G). Holds p.1)
        (sym (choose_informer-answer at to r f))
        (answer_keeps Holds h k r (same_resource r at) (same_resource r to) f holds)

module _ {G I E V : Type 0} (no_informer : GroupVersionResource → E) (ask : V → G → I × G) where
  abbrev pub served : GroupVersionResource → Option V → G → (E ⊎ GenericInformer I) × G
  served r none f = (inl (no_informer r), f)
  served r (some v) f = generic r (ask v f)

  -- The switch asks for the informer of the version that serves the resource.
  pub choose_informer-served :
      (at to r : GroupVersionResource) (v w : V) (o : Option V) (f : G)
      → same_resource to at ≡ false
      → Serves at to v w r o
      → choose_informer no_informer at to (ask v) (ask w) r f ≡ served r o f
  choose_informer-served at to r v w o f ne serves_first =
      choose_informer-answer no_informer (ask v) (ask w) at to r f ∙ rw (same_resource_self r) refl
  choose_informer-served at to r v w o f ne serves_second =
      choose_informer-answer no_informer (ask v) (ask w) at to r f
      ∙ rw (ne, same_resource_self r) refl
  choose_informer-served at to r v w o f ne (serves_none n n') =
      choose_informer-answer no_informer (ask v) (ask w) at to r f
      ∙ rw (same_resource_ne r at n, same_resource_ne r to n') refl
