-- ===== src/Operator/Runs.antt =====
-- Tests of the controller on a cluster that keeps the names of its pods.
use cloud_native_tour.Common.{
  ℤ, pos, negsuc, ℕ, ◌≡◌, refl, Text, codes, text_eq, text_eq_refl, List, [], ◌∷◌, Option, none,
  some, inl, inr, Bool, true, false, if◌then◌else◌, All, Bool-cases, arith,
}
use cloud_native_tour.Operator.Decimal.{decimal, decimal_digits}
use cloud_native_tour.Operator.Application.{Application, Pod}
use cloud_native_tour.Operator.Reconcile.{
  Client, done, failed, pod_name, pod_of, below, enough, create_pods, reconcile,
}
use cloud_native_tour.Operator.Reconcile.Laws.{desired_pods, intended, reconcile_lem}
use cloud_native_tour.Operator.Reconcile.Again.{PodStore, reconcile-pods_exist, reconcile-again}

-- A cluster of one namespace: the names of its pods, and the Application's replicas, if there is one.
record Cluster : Type 0 where
  pods : List Text
  wanted : Option ℤ

abbrev app : ℤ → Application ℕ ℕ ℕ ℕ ℕ
app r = record {
  type_meta = 0;
  object_meta = record {
    name = codes "web";
    namespace = codes "default";
    labels = 0;
    other_metadata = 0;
  };
  spec = record { replicas = r; template = record { spec = 0; template_meta = 0 } };
  status = tt;
}

unfoldable has : Text → List Text → Bool
has n [] = false
has n (m ∷ ms) = if text_eq m n then true else has n ms

abbrev cluster_client : Client Cluster ℕ ℕ ℕ ℕ ℕ ℕ ℕ
cluster_client = record {
  get = λ key s. elim s.wanted [ none ↦ inl 404 | some r ↦ inr (app r) ];
  create = λ p s.
      if has p.name s.pods then (s, some 409) else (record s { pods = p.name ∷ s.pods }, none);
  is_not_found = λ e. true;
}

decimal_test : decimal 1204 ≡ codes "1204"
unfolding decimal decimal_digits
decimal_test = refl

abbrev empty_cluster : ℤ → Cluster
empty_cluster r = record { pods = []; wanted = some r }

abbrev two_pods : ℤ → Cluster
two_pods r = record { pods = codes "web-1" ∷ codes "web-0" ∷ []; wanted = some r }

reconcile_test : reconcile cluster_client 0 (empty_cluster (pos 2)) ≡ some (two_pods (pos 2), done)
unfolding reconcile has create_pods enough below text_eq pod_of pod_name decimal decimal_digits
reconcile_test = refl

reconcile_negative_test :
    reconcile cluster_client 0 (empty_cluster (negsuc 2)) ≡ some (empty_cluster (negsuc 2), done)
unfolding reconcile has create_pods enough below text_eq pod_of pod_name decimal decimal_digits
reconcile_negative_test = refl

reconcile_lem_example :
    reconcile cluster_client 0 (empty_cluster (pos 2))
    ≡ some (intended cluster_client (inr (app (pos 2))) (empty_cluster (pos 2)))
reconcile_lem_example = reconcile_lem cluster_client 0 (empty_cluster (pos 2))

has-cons : (n m : Text) (ms : List Text) → has n ms ≡ true → has n (m ∷ ms) ≡ true
unfolding has
has-cons n m ms h = ground (arith, h)

has_self : (n : Text) (ms : List Text) → has n (n ∷ ms) ≡ true
unfolding has
has_self n ms = rw (text_eq_refl n)

created_has :
    (p : Pod ℕ ℕ) (s : Cluster)
    → (cluster_client.create p s).1 ≡ none
    → has p.name (cluster_client.create p s).0.pods ≡ true
created_has p s e = elim (Bool-cases (has p.name s.pods)) [
  | inl h ↦ rw h h
  | inr h ↦ rw h (has_self p.name s.pods)
]

created_keeps :
    (p : Pod ℕ ℕ) (s : Cluster) (n m : Text)
    → has m s.pods ≡ true
    → has m (cluster_client.create p s).0.pods ≡ true
created_keeps p s n m e = elim (Bool-cases (has p.name s.pods)) [
  | inl h ↦ rw h e
  | inr h ↦ rw h (has-cons m p.name s.pods e)
]

abbrev cluster_store : PodStore cluster_client
cluster_store = record {
  Exists = λ s n m. has m s.pods ≡ true;
  create-exists = created_has;
  create-keeps = created_keeps;
  create-refuses = λ p s h. (409, rw h);
}

reconcile-pods_exist_example :
    All
      (λ (p : Pod ℕ ℕ). has p.name (two_pods (pos 2)).pods ≡ true)
      (desired_pods (app (pos 2)) (pos 2))
reconcile-pods_exist_example =
    reconcile-pods_exist cluster_client cluster_store 0 (empty_cluster (pos 2)) (two_pods (pos 2))
      (app (pos 2)) refl reconcile_test

reconcile-again_example :
    (e : ℕ) × (reconcile cluster_client 0 (two_pods (pos 2)) ≡ some (two_pods (pos 2), failed e))
reconcile-again_example =
    reconcile-again cluster_client cluster_store 0 (empty_cluster (pos 2)) (two_pods (pos 2))
      (app (pos 2)) (app (pos 2)) 1 1 refl refl reconcile_test refl refl refl refl
