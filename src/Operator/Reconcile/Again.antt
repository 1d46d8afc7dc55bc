-- ===== src/Operator/Reconcile/Again.antt =====
-- Reconcile against an API server, which refuses a pod whose name is taken.
use cloud_native_tour.Common.{
  pos, ℕ, suc, ◌≡◌, sym, ap, ◌∙◌, Text, List, [], ◌∷◌, map, All, Option, none, some, inl, inr,
  Option-cases, arith,
}
use mathlib.Core.Path.{subst}
use cloud_native_tour.Operator.Application.{Application, Pod}
use cloud_native_tour.Operator.Reconcile.{Client, Outcome, done, failed, pod_of, reconcile}
use cloud_native_tour.Operator.Reconcile.Laws.{
  count_from, desired_pods, create_until, create_until-accepted, create_until-refused, intended,
  reconcile_lem,
}

-- What the API server documents of Create: a pod that it accepts exists from then on, no Create removes
-- another pod, and a pod that exists is refused and nothing changes. `Holds s n m` says that the pod
-- named `m` exists in the namespace `n`.
pub record PodStore {S K E T R Q L P : Type 0} (client : Client S K E T R Q L P) : Type 1 where
  pub Exists : S → Text → Text → Type 0
  pub create-exists :
      (p : Pod L P) (s : S)
      → (client.create p s).1 ≡ none
      → Exists (client.create p s).0 p.namespace p.name
  pub create-keeps :
      (p : Pod L P) (s : S) (n m : Text) → Exists s n m → Exists (client.create p s).0 n m
  pub create-refuses :
      (p : Pod L P) (s : S)
      → Exists s p.namespace p.name
      → (e : E) × (client.create p s ≡ (s, some e))

module _ {S K E T R Q L P : Type 0} (client : Client S K E T R Q L P)
    (store : PodStore client) where
  open store use {Exists, create-exists, create-keeps, create-refuses}

  abbrev PodExists : S → Pod L P → Type 0
  PodExists s p = Exists s p.namespace p.name

  create_until-keeps :
      (ps : List (Pod L P)) (s : S) (n m : Text)
      → Exists s n m
      → Exists (create_until client ps s).0 n m
  unfolding create_until
  create_until-keeps [] s n m h = h
  create_until-keeps (p ∷ ps) s n m h = elim (Option-cases (client.create p s).1) [
    | inl c ↦
        rw (create_until-accepted client p ps s c)
          (create_until-keeps ps (client.create p s).0 n m (create-keeps p s n m h))
    | inr (x, c) ↦ rw (create_until-refused client p ps s x c) (create-keeps p s n m h)
  ]

  create_until-exist :
      (ps : List (Pod L P)) (s : S)
      → (create_until client ps s).1 ≡ done
      → All (PodExists (create_until client ps s).0) ps
  unfolding create_until
  create_until-exist [] s e = tt
  create_until-exist (p ∷ ps) s e = elim (Option-cases (client.create p s).1) [
    | inl c ↦
        let same = create_until-accepted client p ps s c in
        subst (λ (r : S × Outcome E). All (PodExists r.0) (p ∷ ps)) (sym same)
          (
            create_until-keeps ps (client.create p s).0 p.namespace p.name (create-exists p s c),
            create_until-exist ps (client.create p s).0 (rw same at e),
          )
    | inr (x, c) ↦
        let same = create_until-refused client p ps s x c in
        let error : some x ≡ none = ap (λ (o : Outcome E). o.error) (rw same at e) in
        ground (arith, error)
  ]

  created :
      (key : K) (s s' : S) (crapp : Application T R Q L P)
      → client.get key s ≡ inr crapp
      → reconcile client key s ≡ some (s', done)
      → create_until client (desired_pods crapp crapp.spec.replicas) s ≡ (s', done)
  unfolding intended
  created key s s' crapp got e =
      let run : some (intended client (client.get key s) s) ≡ some (s', done) =
        sym (reconcile_lem client key s) ∙ e in
      ap (λ o. elim o [ none ↦ (s', done) | some r ↦ r ]) (rw got at run)

  -- Where the client keeps the laws of `PodStore` and Get gives an Application: if a reconcile ends
  -- without an error and asks for no retry, then every pod that the Application asks for exists
  -- afterwards.
  pub reconcile-pods_exist :
      (key : K) (s s' : S) (crapp : Application T R Q L P)
      → client.get key s ≡ inr crapp
      → reconcile client key s ≡ some (s', done)
      → All (PodExists s') (desired_pods crapp crapp.spec.replicas)
  reconcile-pods_exist key s s' crapp got e =
      let ps = desired_pods crapp crapp.spec.replicas in
      let run = created key s s' crapp got e in
      subst (λ t. All (PodExists t) ps) (ap (λ r. r.0) run)
        (create_until-exist ps s (ap (λ r. r.1) run))

  -- Where the first pod of an Application that asks for some exists, Reconcile changes nothing, makes
  -- none of the others, and returns the server's error with a retry after a minute.
  pub reconcile-taken :
      (key : K) (s : S) (crapp : Application T R Q L P) (n : ℕ)
      → client.get key s ≡ inr crapp
      → crapp.spec.replicas ≡ pos (suc n)
      → PodExists s (pod_of crapp 0)
      → (e : E) × (reconcile client key s ≡ some (s, failed e))
  unfolding intended
  reconcile-taken key s crapp n got r taken =
      let (e, refused) = create-refuses (pod_of crapp 0) s taken in
      let rest = map (pod_of crapp) (count_from 1 n) in
      (
        e,
        reconcile_lem client key s
            ∙ ap (λ g. some (intended client g s)) got
            ∙ ap (λ t. some (create_until client (desired_pods crapp t) s)) r
            ∙ ap some
                (create_until-refused client (pod_of crapp 0) rest s e (ap (λ q. q.1) refused))
            ∙ ap (λ (q : S × Option E). some (q.0, failed e)) refused,
      )

  -- Where the client keeps the laws of `PodStore`: after a reconcile of an Application with one
  -- replica or more that ended without an error, the next reconcile, of an Application of the same
  -- name and namespace that asks for any number of replicas above 0, changes nothing and returns an
  -- error with a retry after a minute.
  pub reconcile-again :
      (key : K) (s s' : S) (before after : Application T R Q L P) (m n : ℕ)
      → client.get key s ≡ inr before
      → before.spec.replicas ≡ pos (suc m)
      → reconcile client key s ≡ some (s', done)
      → client.get key s' ≡ inr after
      → after.object_meta.name ≡ before.object_meta.name
      → after.object_meta.namespace ≡ before.object_meta.namespace
      → after.spec.replicas ≡ pos (suc n)
      → (e : E) × (reconcile client key s' ≡ some (s', failed e))
  unfolding pod_of
  reconcile-again key s s' before after m n got r ok got' same_name same_namespace r' =
      let all = reconcile-pods_exist key s s' before got ok in
      let first = (subst (λ t. All (PodExists s') (desired_pods before t)) r all).0 in
      reconcile-taken key s' after n got' r' (rw (same_name, same_namespace) first)
