-- ===== src/Operator/Reconcile.antt =====
-- operators/application-operator/internal/controller/application_controller.go: Reconcile. The cluster
-- is a state that the client's calls read and change.
pub mod Laws
pub mod Again
use cloud_native_tour.Common.{
  ℤ, pos, negsuc, ℕ, zero, suc, ◌+◌, ◌*◌, Text, codes, ◌++◌, Option, none, some, ◌⊎◌, inl, inr,
  Bool, false, ltb, if◌then◌else◌,
}
use cloud_native_tour.Operator.Decimal.{decimal}
use cloud_native_tour.Operator.Application.{Application, Pod}

-- client.Client, as far as Reconcile uses it: `S` is the cluster, `K` a types.NamespacedName and `E` an
-- error, of which apimachinery's errors.IsNotFound says whether it is NotFound.
pub record Client (S K E T R Q L P : Type 0) : Type 0 where
  pub get : K → S → E ⊎ Application T R Q L P
  pub create : Pod L P → S → S × Option E
  pub is_not_found : E → Bool

-- ctrl.Result and the error; RequeueAfter is in nanoseconds and 0 when it is not set.
pub record Outcome (E : Type 0) : Type 0 where
  pub requeue_after : ℕ
  pub error : Option E

abbrev pub minute : ℕ
minute = 60 * 1000000000

abbrev pub done : {E : Type 0} → Outcome E
done = record { requeue_after = 0; error = none }

abbrev pub failed : {E : Type 0} → E → Outcome E
failed e = record { requeue_after = minute; error = some e }

-- `i < int(replicas)`
unfoldable pub below : ℕ → ℤ → Bool
below i (pos n) = ltb i n
below i (negsuc n) = false

-- `fmt.Sprintf("%s-%d", name, i)`
unfoldable pub pod_name : Text → ℕ → Text
pod_name name i = name ++ (codes "-" ++ decimal i)

unfoldable pub pod_of : {T R Q L P : Type 0} → Application T R Q L P → ℕ → Pod L P
pod_of crapp i = record {
  name = pod_name crapp.object_meta.name i;
  namespace = crapp.object_meta.namespace;
  labels = crapp.object_meta.labels;
  spec = crapp.spec.template.spec;
}

-- More rounds than an Application's replicas ever take.
unfoldable pub enough : ℤ → ℕ
enough (pos n) = suc n
enough (negsuc n) = 1

module _ {S K E T R Q L P : Type 0} (client : Client S K E T R Q L P) where
  -- The loop, at `i`. `none` is a loop that ran out of fuel.
  unfoldable pub create_pods : ℕ → Application T R Q L P → ℕ → S → Option (S × Outcome E)
  create_pods zero crapp i s = none
  create_pods (suc fuel) crapp i s =
      if below i crapp.spec.replicas
      then (let (s', r) = client.create (pod_of crapp i) s in
          elim r [ none ↦ create_pods fuel crapp (suc i) s' | some e ↦ some (s', failed e) ])
      else some (s, done)

  unfoldable pub reconcile : K → S → Option (S × Outcome E)
  reconcile key s = elim (client.get key s) [
    | inl e ↦ if client.is_not_found e then some (s, done) else some (s, failed e)
    | inr crapp ↦ create_pods (enough crapp.spec.replicas) crapp 0 s
  ]
