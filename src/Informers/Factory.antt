-- ===== src/Informers/Factory.antt =====
-- kube-aggregator/pkg/client/informers/externalversions/factory.go. The lock makes each method one step;
-- a goroutine is in `running` until informer.Run returns. A map is ranged over in the order of its list,
-- and the order is not seen afterwards. `C` is the client, `W` the filter of list options, `F` a
-- transform, `I` an informer and `S` a stop channel.
pub mod Start
pub mod Removal
pub mod Steps
pub mod Shutdown
pub mod Sync
pub mod Phases
pub mod Lifecycle
use cloud_native_tour.Common.{
  ℕ, suc, zero, ◌+◌, ◌-◌, ℤ, Text, List, [], ◌∷◌, Option, none, some, Bool, true, false, ◌==◌,
  if◌then◌else◌,
}
use cloud_native_tour.Informers.Maps.{find, put, member}

-- sharedInformerFactory: `started` are the keys of startedInformers, whose values are all true.
pub record SharedInformerFactory (C W F I S : Type 0) : Type 0 where
  pub client : C
  pub namespace : Text
  pub tweak_list_options : Option W
  pub default_resync : ℤ
  pub custom_resync : List (ℕ × ℤ)
  pub transform : Option F
  pub informers : List (ℕ × I)
  pub started : List ℕ
  pub wait_group : ℕ
  pub shutting_down : Bool
  pub running : List (ℕ × S)

unfoldable pub remove_at : {A : Type 0} → ℕ → List A → List A
remove_at k [] = []
remove_at zero (x ∷ xs) = xs
remove_at (suc k) (x ∷ xs) = x ∷ remove_at k xs

unfoldable pub put_all : List (ℕ × ℤ) → List (ℕ × ℤ) → List (ℕ × ℤ)
put_all [] m = m
put_all ((k, v) ∷ config) m = put_all config (put k v m)

unfoldable pub started_informers :
    {I : Type 0} → List (ℕ × I) → List ℕ → List (ℕ × I) → List (ℕ × I)
started_informers [] started res = res
started_informers ((kind, informer) ∷ rest) started res =
    started_informers rest started (if member kind started then put kind informer res else res)

unfoldable pub sync_all :
    {I : Type 0} → (I → Bool) → List (ℕ × I) → List (ℕ × Bool) → List (ℕ × Bool)
sync_all wait [] res = res
sync_all wait ((kind, informer) ∷ rest) res = sync_all wait rest (put kind (wait informer) res)

-- A change of the factory.
abbrev pub SharedInformerOption : Type 0 → Type 0 → Type 0 → Type 0 → Type 0 → Type 0
SharedInformerOption C W F I S = SharedInformerFactory C W F I S → SharedInformerFactory C W F I S

module _ {C W F I S : Type 0} where
  unfoldable pub with_custom_resync_config : List (ℕ × ℤ) → SharedInformerOption C W F I S
  with_custom_resync_config config f = record f { custom_resync = put_all config f.custom_resync }

  unfoldable pub with_tweak_list_options : W → SharedInformerOption C W F I S
  with_tweak_list_options tweak f = record f { tweak_list_options = some tweak }

  unfoldable pub with_namespace : Text → SharedInformerOption C W F I S
  with_namespace namespace f = record f { namespace = namespace }

  unfoldable pub with_transform : F → SharedInformerOption C W F I S
  with_transform transform f = record f { transform = some transform }

  unfoldable pub apply_options :
      List (SharedInformerOption C W F I S) → SharedInformerOption C W F I S
  apply_options [] f = f
  apply_options (option ∷ options) f = apply_options options (option f)

  unfoldable pub new_shared_informer_factory_with_options :
      C → ℤ → List (SharedInformerOption C W F I S) → SharedInformerFactory C W F I S
  new_shared_informer_factory_with_options client default_resync options =
      apply_options options (record {
        client = client;
        namespace = [];
        tweak_list_options = none;
        default_resync = default_resync;
        custom_resync = [];
        transform = none;
        informers = [];
        started = [];
        wait_group = 0;
        shutting_down = false;
        running = [];
      })

  unfoldable pub new_shared_informer_factory : C → ℤ → SharedInformerFactory C W F I S
  new_shared_informer_factory client default_resync =
      new_shared_informer_factory_with_options client default_resync []

  unfoldable pub new_filtered_shared_informer_factory :
      C → ℤ → Text → W → SharedInformerFactory C W F I S
  new_filtered_shared_informer_factory client default_resync namespace tweak =
      new_shared_informer_factory_with_options client default_resync
        (with_namespace namespace ∷ with_tweak_list_options tweak ∷ [])

  unfoldable pub start_round : S → ℕ → SharedInformerOption C W F I S
  start_round stop kind f = if member kind f.started then f else record f {
    wait_group = f.wait_group + 1;
    running = (kind, stop) ∷ f.running;
    started = kind ∷ f.started;
  }

  unfoldable pub start_loop : S → List (ℕ × I) → SharedInformerOption C W F I S
  start_loop stop [] f = f
  start_loop stop ((kind, informer) ∷ rest) f = start_loop stop rest (start_round stop kind f)

  unfoldable pub start : S → SharedInformerOption C W F I S
  start stop f = if f.shutting_down then f else start_loop stop f.informers f

  -- A goroutine of Start ends, and with it `f.wg.Done()`.
  unfoldable pub finish : ℕ → SharedInformerOption C W F I S
  finish k f = record f { wait_group = f.wait_group - 1; running = remove_at k f.running }

  -- Shutdown up to `f.wg.Wait()`, which returns once nothing is left to wait for.
  unfoldable pub shutdown : SharedInformerOption C W F I S
  shutdown f = record f { shutting_down = true }

  unfoldable pub shutdown_returns : SharedInformerFactory C W F I S → Bool
  shutdown_returns f = f.wait_group == 0

  unfoldable pub resync_period : ℕ → SharedInformerFactory C W F I S → ℤ
  resync_period kind f = elim (find kind f.custom_resync) [ none ↦ f.default_resync | some d ↦ d ]

  -- `set_transform` is the informer after its SetTransform.
  unfoldable pub informer_for :
      (I → Option F → I)
      → ℕ
      → (C → ℤ → I)
      → SharedInformerFactory C W F I S
      → I × SharedInformerFactory C W F I S
  informer_for set_transform kind new_func f = elim (find kind f.informers) [
    | some informer ↦ (informer, f)
    | none ↦
        let informer = set_transform (new_func f.client (resync_period kind f)) f.transform in
        (informer, record f { informers = put kind informer f.informers })
  ]

  -- `wait` is cache.WaitForCacheSync on the informer's HasSynced.
  unfoldable pub wait_for_cache_sync :
      (I → Bool) → SharedInformerFactory C W F I S → List (ℕ × Bool)
  wait_for_cache_sync wait f = sync_all wait (started_informers f.informers f.started []) []
