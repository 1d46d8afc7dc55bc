-- ===== src/Clients/Clientset/Laws.antt =====
-- The clientset of a config is that of its http client.
use cloud_native_tour.Common.{Option-cases, Bool-cases, ◌≡◌, refl, ap, ◌∙◌, ◌⊎◌, inl, inr}
use cloud_native_tour.Clients.Config.{GroupVersion, Config, ClientGo, ◌>>=◌, not_positive}
use cloud_native_tour.Clients.Typed.{TypedClient, with_user_agent, set_config_defaults}
use cloud_native_tour.Clients.Typed as Typed
use cloud_native_tour.Clients.Typed.Laws.{set_config_defaults-with_user_agent}
use cloud_native_tour.Clients.Clientset.{
  Clientset, with_rate_limiter, new_for_config_and_client, new_for_config,
}

-- A change that what follows does not see.
bind_same :
    {E A B : Type 0} (change : A → A) (next : A → E ⊎ B)
    → ((a : A) → next (change a) ≡ next a)
    → (r : E ⊎ A) → (r >>= (λ a. inr (change a)) >>= next) ≡ (r >>= next)
bind_same change next h (inl e) = refl
bind_same change next h (inr a) = h a

module _ {Q B N X H R D E : Type 0} (go : ClientGo Q B N X H R D E) where
  with_rate_limiter-with_user_agent :
      (c : Config Q B N X)
      → with_rate_limiter go (with_user_agent go c)
        ≡ (with_rate_limiter go c >>= λ d. inr (with_user_agent go d))
  unfolding with_rate_limiter with_user_agent
  with_rate_limiter-with_user_agent c = elim (Option-cases c.rate_limiter) [
    | inr (l, e) ↦ rw (e, with_rate_limiter) refl
    | inl e ↦ elim (Bool-cases (go.is_positive c.qps)) [
      | inr p ↦ rw (e, p, with_rate_limiter) refl
      | inl p ↦ elim (Bool-cases (not_positive c.burst)) [
        | inl b ↦ rw (e, p, b, with_rate_limiter) refl
        | inr b ↦ rw (e, p, b, with_rate_limiter) refl
      ]
    ]
  ]

  -- The clients made from a config that has its rate limiter.
  abbrev clients_of : GroupVersion → GroupVersion → H → Config Q B N X → E ⊎ Clientset R D
  clients_of first second h config = do
    a ← Typed.new_for_config_and_client go first config h
    b ← Typed.new_for_config_and_client go second config h
    d ← go.discovery_client_for config h
    inr (record { discovery_client = d; first_client = a; second_client = b })

  module _
      (discovery_user_agent : (c : Config Q B N X) (h : H)
        → go.discovery_client_for (with_user_agent go c) h ≡ go.discovery_client_for c h) where
    clients_of-with_user_agent :
        (first second : GroupVersion) (h : H) (c : Config Q B N X)
        → clients_of first second h (with_user_agent go c) ≡ clients_of first second h c
    unfolding Typed.new_for_config_and_client
    clients_of-with_user_agent first second h c =
        rw
          (
            set_config_defaults-with_user_agent go first c,
            set_config_defaults-with_user_agent go second c,
            discovery_user_agent c h,
          )
          refl

    and_client-with_user_agent :
        (first second : GroupVersion) (c : Config Q B N X) (h : H)
        → new_for_config_and_client go first second (with_user_agent go c) h
          ≡ new_for_config_and_client go first second c h
    unfolding new_for_config_and_client
    and_client-with_user_agent first second c h =
        ap (λ r. r >>= clients_of first second h) (with_rate_limiter-with_user_agent c)
        ∙ bind_same (with_user_agent go) (clients_of first second h)
            (clients_of-with_user_agent first second h) (with_rate_limiter go c)

    -- Where the discovery client sets a missing user agent itself: NewForConfig of a clientset is
    -- NewForConfigAndClient of the same config, errors included, with the http client of the config
    -- whose user agent is set.
    pub new_for_config_lem :
        (first second : GroupVersion) (c : Config Q B N X)
        → new_for_config go first second c ≡ (
            go.http_client_for (with_user_agent go c) >>= λ h.
            new_for_config_and_client go first second c h)
    unfolding new_for_config
    new_for_config_lem first second c =
        ap (λ k. go.http_client_for (with_user_agent go c) >>= k)
          (λ i h. and_client-with_user_agent first second c h i)
