-- ===== src/Clients/Clientset.antt =====
-- kube-aggregator/pkg/client/clientset_generated/clientset/clientset.go, over the two group versions of
-- its group.
pub mod Laws
use cloud_native_tour.Common.{
  Text, codes, Option, none, some, ◌⊎◌, inl, inr, if◌then◌else◌, Bool, false,
}
use cloud_native_tour.Clients.Config.{GroupVersion, Config, ClientGo, ◌>>=◌, not_positive}
use cloud_native_tour.Clients.Typed.{TypedClient, with_user_agent, new_typed}
use cloud_native_tour.Clients.Typed as Typed

pub record Clientset (R D : Type 0) : Type 0 where
  pub discovery_client : D
  pub first_client : TypedClient R
  pub second_client : TypedClient R

-- `none` is nil.
unfoldable pub discovery : {R D : Type 0} → Option (Clientset R D) → Option D
discovery none = none
discovery (some c) = some c.discovery_client

module _ {Q B N X H R D E : Type 0} (go : ClientGo Q B N X H R D E) where
  abbrev pub burst_required : Text
  burst_required =
      codes
        "burst is required to be greater than 0 when RateLimiter is not set and QPS is set to greater than 0"

  -- The config that every client is made from: with a rate limiter, unless its QPS is not positive.
  unfoldable pub with_rate_limiter : Config Q B N X → E ⊎ Config Q B N X
  with_rate_limiter c = elim c.rate_limiter [
    | some l ↦ inr c
    | none ↦
        if go.is_positive c.qps
        then (if not_positive c.burst
            then inl (go.error burst_required)
            else inr (record c { rate_limiter = some (go.new_rate_limiter c.qps c.burst) }))
        else inr c
  ]

  module _ (first second : GroupVersion) where
    unfoldable pub new_for_config_and_client : Config Q B N X → H → E ⊎ Clientset R D
    new_for_config_and_client c h = do
      config ← with_rate_limiter c
      a ← Typed.new_for_config_and_client go first config h
      b ← Typed.new_for_config_and_client go second config h
      d ← go.discovery_client_for config h
      inr (record { discovery_client = d; first_client = a; second_client = b })

    unfoldable pub new_for_config : Config Q B N X → E ⊎ Clientset R D
    new_for_config c = do
      http_client ← go.http_client_for (with_user_agent go c)
      new_for_config_and_client (with_user_agent go c) http_client

    -- `none` is a panic.
    unfoldable pub new_for_config_or_die : Config Q B N X → Option (Clientset R D)
    new_for_config_or_die c = elim (new_for_config c) [ inl err ↦ none | inr cs ↦ some cs ]

  unfoldable pub new : R → Clientset R D
  new c = record {
    discovery_client = go.new_discovery_client c;
    first_client = new_typed c;
    second_client = new_typed c;
  }
