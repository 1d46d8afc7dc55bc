-- ===== src/Clients/Typed/Laws.antt =====
-- A client made from a config is made as from its http client.
use cloud_native_tour.Common.{Text, Bool-cases, ◌≡◌, refl, ap, inl, inr, if◌then◌else◌}
use cloud_native_tour.Clients.Config.{GroupVersion, Config, ClientGo, ◌>>=◌, is_empty}
use cloud_native_tour.Clients.Typed.{
  with_user_agent, set_config_defaults, new_for_config_and_client, new_for_config,
}

pub default_again :
    (ua default : Text)
    → (if is_empty (if is_empty ua then default else ua)
        then default
        else (if is_empty ua then default else ua))
      ≡ (if is_empty ua then default else ua)
default_again ua default = elim (Bool-cases (is_empty ua)) [
  | inl e ↦ rw e (elim (Bool-cases (is_empty default)) [ inl d ↦ rw d refl | inr d ↦ rw d refl ])
  | inr e ↦ rw e (rw e refl)
]

module _ {Q B N X H R D E : Type 0} (go : ClientGo Q B N X H R D E) where
  pub with_user_agent_idempotent :
      (c : Config Q B N X) → with_user_agent go (with_user_agent go c) ≡ with_user_agent go c
  unfolding with_user_agent
  with_user_agent_idempotent c =
      ap (λ u. record c { user_agent = u }) (default_again c.user_agent go.default_user_agent)

  pub set_config_defaults-with_user_agent :
      (gv : GroupVersion) (c : Config Q B N X)
      → set_config_defaults go gv (with_user_agent go c) ≡ set_config_defaults go gv c
  unfolding set_config_defaults with_user_agent
  set_config_defaults-with_user_agent gv c =
      ap (λ u. record (set_config_defaults go gv c) { user_agent = u })
        (default_again c.user_agent go.default_user_agent)

  pub set_config_defaults_idempotent :
      (gv : GroupVersion) (c : Config Q B N X)
      → set_config_defaults go gv (set_config_defaults go gv c) ≡ set_config_defaults go gv c
  unfolding set_config_defaults with_user_agent
  set_config_defaults_idempotent gv c =
      ap (λ u. record (set_config_defaults go gv c) { user_agent = u })
        (default_again c.user_agent go.default_user_agent)

  pub typed_new_for_config_lem :
      (gv : GroupVersion) (c : Config Q B N X)
      → new_for_config go gv c ≡ (
          go.http_client_for (set_config_defaults go gv c) >>= λ h.
          new_for_config_and_client go gv c h)
  unfolding new_for_config new_for_config_and_client
  typed_new_for_config_lem gv c =
      ap
        (λ (d : Config Q B N X). go.http_client_for (set_config_defaults go gv c) >>= λ h.
          go.rest_client_for d h >>= λ r. inr (record { rest_client = r }))
        (set_config_defaults_idempotent gv c)
