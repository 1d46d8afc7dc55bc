-- ===== src/Informers/Runs.antt =====
-- Tests of the informer factory: a client, a filter, a transform, an informer and a stop channel are
-- numbers each.
use cloud_native_tour.Common.{
  ℕ, ◌+◌, ℤ, pos, codes, ◌≡◌, refl, [], ◌∷◌, Option, none, some, true, false, ◌==◌, if◌then◌else◌,
  text_eq, inl, inr,
}
use mathlib.Core.Option
use cloud_native_tour.Informers.Maps.{find, put, member}
use cloud_native_tour.Informers.Factory.{
  SharedInformerFactory, new_shared_informer_factory, new_filtered_shared_informer_factory,
  new_shared_informer_factory_with_options, apply_options, put_all, with_custom_resync_config,
  with_namespace, with_tweak_list_options, start, start_loop, start_round, shutdown,
  shutdown_returns, finish, remove_at, resync_period, informer_for, wait_for_cache_sync,
}
use cloud_native_tour.Informers.Resources.{
  choose_informer, Library, Version, v1_api_services, v1beta1_api_services, same_resource,
  default_informer, new_filtered_api_service_informer, informer, for_resource,
}
use cloud_native_tour.Informers.Resources.Served.{serves_second}
use cloud_native_tour.Informers.Resources.Laws.{for_resource_lem, expected, Leaves}
use cloud_native_tour.Informers.Factory.Start.{IsWellFormed}
use cloud_native_tour.Informers.Factory.Steps.{
  started, asked, shut, Reach, here, next, informer_for-informer_for, Reach-IsWellFormed,
}
use cloud_native_tour.Informers.Factory.Phases.{replay, starts, asks}
use cloud_native_tour.Informers.Factory.Lifecycle.{view, events, Reach-replay}
use cloud_native_tour.Informers.Factory.Shutdown.{StaysDown, Reach-StaysDown, shutdown-returns}
use cloud_native_tour.Informers.Factory.Sync.{find-wait_for_cache_sync}

abbrev Factory : Type 0
Factory = SharedInformerFactory ℕ ℕ ℕ ℕ ℕ

-- A transform adds its number.
abbrev transformed : ℕ → Option ℕ → ℕ
transformed i none = i
transformed i (some t) = i + t

abbrev numbered : ℕ → ℕ → ℤ → ℕ
numbered n client resync = client + n

abbrev fresh : Factory
fresh = new_shared_informer_factory 7 (pos 600)

-- Informers of the types 1 and 2 are asked for, and started with the channel 0.
abbrev asked_one : Factory
asked_one = (informer_for transformed 1 (numbered 10) fresh).1

abbrev asked_two : Factory
asked_two = (informer_for transformed 2 (numbered 20) asked_one).1

abbrev ready : Factory
ready = start 0 asked_two

fresh-ready : Reach transformed fresh ready
fresh-ready =
    next (next (next here (asked 1 (numbered 10) fresh)) (asked 2 (numbered 20) asked_one))
      (started 0 asked_two)

ready-IsWellFormed : IsWellFormed ready
ready-IsWellFormed = Reach-IsWellFormed transformed 7 (pos 600) ready fresh-ready

-- The first and the second informer run; the option list is applied in order.
start_test :
    (ready.running ≡ (2, 0) ∷ (1, 0) ∷ [])
    × (ready.wait_group ≡ 2)
    × (ready.informers ≡ (1, 17) ∷ (2, 27) ∷ [])
unfolding start start_loop start_round informer_for new_shared_informer_factory
    new_shared_informer_factory_with_options apply_options put find member resync_period
start_test = (refl, refl, refl)

options_test :
    (resync_period {C = ℕ} 4 (
        new_shared_informer_factory_with_options {W = ℕ} {F = ℕ} {I = ℕ} {S = ℕ} 7
          (pos 600)
          (with_custom_resync_config ((4, pos 5) ∷ []) ∷ with_namespace (codes "demo") ∷ []))
      ≡ pos 5)
    × (resync_period 4 fresh ≡ pos 600)
    × ((new_filtered_shared_informer_factory {C = ℕ} {W = ℕ} {F = ℕ} {I = ℕ} {S = ℕ} 7
          (pos 600)
          (codes "demo")
          3).tweak_list_options
        ≡ some 3)
unfolding resync_period new_filtered_shared_informer_factory new_shared_informer_factory
    new_shared_informer_factory_with_options apply_options with_custom_resync_config with_namespace
    with_tweak_list_options put_all put find
options_test = (refl, refl, refl)

finish_test :
    ((finish 1 ready).running ≡ (2, 0) ∷ [])
    × (shutdown_returns (shutdown (finish 1 ready)) ≡ false)
    × (shutdown_returns (shutdown (finish 0 (finish 1 ready))) ≡ true)
unfolding finish remove_at shutdown shutdown_returns start start_loop start_round informer_for
    new_shared_informer_factory new_shared_informer_factory_with_options apply_options put find
    member resync_period
finish_test = (refl, refl, refl)

Reach-IsWellFormed_example : IsWellFormed ready
Reach-IsWellFormed_example = Reach-IsWellFormed transformed 7 (pos 600) ready fresh-ready

Reach-StaysDown_example :
    StaysDown transformed
      (shutdown ready)
      (start 1 (informer_for transformed 3 (numbered 30) (shutdown ready)).1)
unfolding shutdown
Reach-StaysDown_example =
    Reach-StaysDown transformed
      (next (next here (asked 3 (numbered 30) (shutdown ready)))
        (started 1 (informer_for transformed 3 (numbered 30) (shutdown ready)).1))
      refl

shutdown-returns_example :
    (g : Factory) × Reach transformed (shutdown ready) g
    × (g.shutting_down ≡ true)
    × (shutdown_returns g ≡ true)
shutdown-returns_example = shutdown-returns transformed ready ready-IsWellFormed

find-wait_for_cache_sync_example :
    find 2 (wait_for_cache_sync (λ i. i == 17) ready)
    ≡ (if member 2 ready.started then Option.map (λ i. i == 17) (find 2 ready.informers) else none)
find-wait_for_cache_sync_example =
    find-wait_for_cache_sync (λ i. i == 17) ready 2 ready-IsWellFormed.informers_distinct

-- Asked for a type that is not there yet, the factory is then started, shut down and asked for another.
abbrev with_three : Factory
with_three = (informer_for transformed 3 (numbered 30) ready).1

abbrev afterwards : Factory
afterwards = (informer_for transformed 4 (numbered 40) (shutdown (start 1 with_three))).1

with_three-afterwards : Reach transformed with_three afterwards
with_three-afterwards =
    next (next (next here (started 1 with_three)) (shut (start 1 with_three)))
      (asked 4 (numbered 40) (shutdown (start 1 with_three)))

informer_for-informer_for_example :
    ((informer_for transformed 3 (numbered 30) ready).0 ≡ elim (find 3 ready.informers) [
      | none ↦
          transformed
            (numbered 30 ready.client
              (elim (find 3 ready.custom_resync) [ none ↦ ready.default_resync | some d ↦ d ]))
            ready.transform
      | some i ↦ i
    ])
    × (informer_for transformed 3 (numbered 50) afterwards
        ≡ ((informer_for transformed 3 (numbered 30) ready).0, afterwards))
informer_for-informer_for_example =
    informer_for-informer_for transformed 3 (numbered 30) (numbered 50) ready afterwards
      with_three-afterwards

Reach-replay_example : view ready ≡ replay (events transformed fresh-ready)
Reach-replay_example = Reach-replay transformed 7 (pos 600) ready fresh-ready

events_test : events transformed fresh-ready ≡ starts ∷ asks 2 ∷ asks 1 ∷ []
unfolding fresh-ready
events_test = refl

-- A library in which an informer lists at once: List and Watch return the options they are given.
abbrev numbers : Library ℕ ℕ ℕ ℕ ℕ ℕ ℕ ℕ
numbers = record {
  new_shared_index_informer = λ list watch kind resync indexers. list 0 + kind;
  set_transform = transformed;
  namespace_indexers = 0;
  no_informer = λ r. 404;
}

abbrev version : ℕ → Version ℕ ℕ ℕ ℕ
version k = record { kind = k; list = λ c o. c + o; watch = λ c o. c + o }

-- A factory whose filter adds 100
abbrev filtered : SharedInformerFactory ℕ (ℕ → ℕ) ℕ ℕ ℕ
filtered = new_filtered_shared_informer_factory 7 (pos 600) [] (λ o. o + 100)

for_resource_test :
    ((for_resource numbers (version 1) (version 2) v1beta1_api_services filtered).0
      ≡ inr (record {
        informer = 109;
        resource = (codes "registration.foen.ye", codes "apiservices");
      }))
    × ((for_resource numbers
          (version 1)
          (version 2)
          (record v1_api_services { version = [] })
          filtered).0
        ≡ inl 404)
unfolding for_resource choose_informer informer same_resource text_eq informer_for default_informer
    new_filtered_api_service_informer new_filtered_shared_informer_factory
    new_shared_informer_factory_with_options apply_options with_namespace with_tweak_list_options
    put find resync_period
for_resource_test = (refl, refl)

abbrev given_beta : SharedInformerFactory ℕ (ℕ → ℕ) ℕ ℕ ℕ
given_beta = (for_resource numbers (version 1) (version 2) v1beta1_api_services filtered).1

for_resource_lem_example :
    ((for_resource numbers (version 1) (version 2) v1beta1_api_services filtered).0
      ≡ expected numbers v1beta1_api_services (some (version 2)) filtered)
    × Leaves numbers (some (version 2)) filtered given_beta
    × (for_resource numbers (version 1) (version 2) v1beta1_api_services (start 0 given_beta)
        ≡ (expected numbers v1beta1_api_services (some (version 2)) filtered, start 0 given_beta))
for_resource_lem_example =
    for_resource_lem numbers (version 1) (version 2) v1beta1_api_services (some (version 2))
      filtered (start 0 given_beta) serves_second (next here (started 0 given_beta))
