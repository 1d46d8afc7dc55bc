-- ===== src/Operator/Reconcile/Laws.antt =====
-- Reconcile on every branch: which pods it creates, in which order, and what it reports.
use cloud_native_tour.Common.{
  ℤ, pos, negsuc, ℕ, zero, suc, ◌+◌, ◌≡◌, refl, ap, ◌∙◌, Text, codes, List, [], ◌∷◌, ◌++◌, map,
  Option, none, some, inl, inr, ◌⊎◌, Bool-cases, Option-cases, true, false, if◌then◌else◌, lt→ltb,
  ltb-eq-false, arith,
}
use cloud_native_tour.Operator.Decimal.{decimal}
use cloud_native_tour.Operator.Decimal.Laws.{decimal_injective}
use cloud_native_tour.Operator.Application.{Application, Pod}
use cloud_native_tour.Operator.Reconcile.{
  Client, Outcome, done, failed, below, enough, pod_name, pod_of, create_pods, reconcile,
}

-- The numbers from `i` on.
abbrev pub count_from : ℕ → ℕ → List ℕ
count_from i zero = []
count_from i (suc n) = i ∷ count_from (suc i) n

-- The pods that an Application asks for; a negative number of replicas asks for none.
abbrev pub desired_pods : {T R Q L P : Type 0} → Application T R Q L P → ℤ → List (Pod L P)
desired_pods crapp (pos n) = map (pod_of crapp) (count_from 0 n)
desired_pods crapp (negsuc n) = []

append_cancel : (s t u : Text) → s ++ t ≡ s ++ u → t ≡ u
append_cancel [] t u e = e
append_cancel (c ∷ s) t u e = append_cancel s t u (ground (arith, e))

-- Two pods of one Application that have the same name have the same number.
pub pod_name_injective : (name : Text) (i j : ℕ) → pod_name name i ≡ pod_name name j → i ≡ j
unfolding pod_name
pod_name_injective name i j e = decimal_injective i j (
    append_cancel (codes "-") (decimal i) (decimal j)
      (append_cancel name (codes "-" ++ decimal i) (codes "-" ++ decimal j) e))

module _ {S K E T R Q L P : Type 0} (client : Client S K E T R Q L P) where
  -- What is asked of the controller: the pods in order, up to the first that the client refuses.
  unfoldable pub create_until : List (Pod L P) → S → S × Outcome E
  create_until [] s = (s, done)
  create_until (p ∷ ps) s =
      let (s', r) = client.create p s in
      elim r [ none ↦ create_until ps s' | some e ↦ (s', failed e) ]

  create_pods-create :
      (fuel : ℕ) (crapp : Application T R Q L P) (i : ℕ) (s : S)
      → below i crapp.spec.replicas ≡ true
      → create_pods client (suc fuel) crapp i s ≡ (
          let (s', r) = client.create (pod_of crapp i) s in
          elim r [ none ↦ create_pods client fuel crapp (suc i) s' | some e ↦ some (s', failed e) ])
  unfolding create_pods
  create_pods-create fuel crapp i s e = rw e

  create_pods-done :
      (fuel : ℕ) (crapp : Application T R Q L P) (i : ℕ) (s : S)
      → below i crapp.spec.replicas ≡ false
      → create_pods client (suc fuel) crapp i s ≡ some (s, done)
  unfolding create_pods
  create_pods-done fuel crapp i s e = rw e

  pub create_until-accepted :
      (p : Pod L P) (ps : List (Pod L P)) (s : S)
      → (client.create p s).1 ≡ none
      → create_until (p ∷ ps) s ≡ create_until ps (client.create p s).0
  unfolding create_until
  create_until-accepted p ps s e = rw (create_until, e)

  pub create_until-refused :
      (p : Pod L P) (ps : List (Pod L P)) (s : S) (x : E)
      → (client.create p s).1 ≡ some x
      → create_until (p ∷ ps) s ≡ ((client.create p s).0, failed x)
  unfolding create_until
  create_until-refused p ps s x e = rw (create_until, e)

  create_until-cons :
      (p : Pod L P) (ps : List (Pod L P)) (s : S) (k : S → Option (S × Outcome E))
      → ((s' : S) → k s' ≡ some (create_until ps s'))
      → (let (s', r) = client.create p s in elim r [ none ↦ k s' | some e ↦ some (s', failed e) ])
        ≡ some (create_until (p ∷ ps) s)
  create_until-cons p ps s k h = elim (Option-cases (client.create p s).1) [
    | inl e ↦ rw (create_until-accepted p ps s e) (rw e (h (client.create p s).0))
    | inr (x, e) ↦ rw (create_until-refused p ps s x e) (rw e)
  ]

  create_pods-count_from :
      (crapp : Application T R Q L P) (n i : ℕ) (s : S)
      → crapp.spec.replicas ≡ pos (i + n)
      → create_pods client (suc n) crapp i s
        ≡ some (create_until (map (pod_of crapp) (count_from i n)) s)
  create_pods-count_from crapp zero i s e =
      create_pods-done 0 crapp i s
        (ap (below i) e ∙ (unfold below in ltb-eq-false i (i + 0) (omega arith)))
      ∙ (unfold create_until in refl)
  create_pods-count_from crapp (suc n) i s e =
      create_pods-create (suc n) crapp i s
        (ap (below i) e ∙ (unfold below in lt→ltb i (i + suc n) (omega arith)))
      ∙ create_until-cons (pod_of crapp i) (map (pod_of crapp) (count_from (suc i) n)) s
          (create_pods client (suc n) crapp (suc i))
          (λ s'. create_pods-count_from crapp n (suc i) s' (e ∙ ap pos (omega arith)))

  create_pods-desired :
      (crapp : Application T R Q L P) (r : ℤ) (s : S)
      → crapp.spec.replicas ≡ r
      → create_pods client (enough r) crapp 0 s ≡ some (create_until (desired_pods crapp r) s)
  unfolding enough
  create_pods-desired crapp (pos n) s e =
      create_pods-count_from crapp n 0 s (e ∙ ap pos (omega arith))
  create_pods-desired crapp (negsuc n) s e =
      create_pods-done 0 crapp 0 s (ap (below 0) e ∙ (unfold below in refl))
      ∙ (unfold create_until in refl)

  -- What Reconcile does with what Get gave it.
  unfoldable pub intended : E ⊎ Application T R Q L P → S → S × Outcome E
  intended (inl e) s = if client.is_not_found e then (s, done) else (s, failed e)
  intended (inr crapp) s = create_until (desired_pods crapp crapp.spec.replicas) s

  -- Reconcile always ends. It creates the pods that the Application asks for, in order, up to the
  -- first that the client refuses, whose error it returns with a retry after a minute; where the
  -- client refuses none, it returns no error; a negative number of replicas asks for no pod. Where Get
  -- says that the Application is not found, nothing changes and no error is returned; any other error
  -- of Get changes nothing and is returned with a retry after a minute.
  pub reconcile_lem :
      (key : K) (s : S) → reconcile client key s ≡ some (intended (client.get key s) s)
  unfolding reconcile intended
  reconcile_lem key s =
      elim (client.get key s)
        as (λ r.
          elim r as (λ x. Option (S × Outcome E)) [
            | inl e ↦ if client.is_not_found e then some (s, done) else some (s, failed e)
            | inr crapp ↦ create_pods client (enough crapp.spec.replicas) crapp 0 s
          ]
          ≡ some (intended r s)) [
            | inl e ↦ elim (Bool-cases (client.is_not_found e)) [ inl t ↦ rw t | inr t ↦ rw t ]
            | inr crapp ↦ create_pods-desired crapp crapp.spec.replicas s refl
          ]
