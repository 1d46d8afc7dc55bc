-- ===== src/Clients/Typed.antt =====
-- The client of one group version, as in
-- kube-aggregator/pkg/client/clientset_generated/clientset/typed/registration/v1/registration_client.go;
-- the others differ in the group version. A Config is a value, as the code copies it first.
pub mod Laws
use cloud_native_tour.Common.{Text, codes, Option, none, some, ◌⊎◌, inl, inr, if◌then◌else◌}
use cloud_native_tour.Clients.Config.{GroupVersion, Config, ClientGo, ◌>>=◌, is_empty}

-- RegistrationV1Client
pub record TypedClient (R : Type 0) : Type 0 where
  pub rest_client : R

module _ {Q B N X H R D E : Type 0} (go : ClientGo Q B N X H R D E) where
  unfoldable pub with_user_agent : Config Q B N X → Config Q B N X
  with_user_agent config = record config {
    user_agent = if is_empty config.user_agent then go.default_user_agent else config.user_agent;
  }

  unfoldable pub set_config_defaults : GroupVersion → Config Q B N X → Config Q B N X
  set_config_defaults gv config = with_user_agent (record config {
    group_version = some gv;
    api_path = codes "/apis";
    negotiated_serializer = some go.codec;
  })

  unfoldable pub new_for_config_and_client : GroupVersion → Config Q B N X → H → E ⊎ TypedClient R
  new_for_config_and_client gv c h = do
    client ← go.rest_client_for (set_config_defaults gv c) h
    inr (record { rest_client = client })

  unfoldable pub new_for_config : GroupVersion → Config Q B N X → E ⊎ TypedClient R
  new_for_config gv c = do
    http_client ← go.http_client_for (set_config_defaults gv c)
    new_for_config_and_client gv (set_config_defaults gv c) http_client

  -- `none` is a panic.
  unfoldable pub new_for_config_or_die : GroupVersion → Config Q B N X → Option (TypedClient R)
  new_for_config_or_die gv c = elim (new_for_config gv c) [
    | inl err ↦ none
    | inr client ↦ some client
  ]

-- New
unfoldable pub new_typed : {R : Type 0} → R → TypedClient R
new_typed c = record { rest_client = c }

-- RESTClient; `none` is nil.
unfoldable pub get_rest_client : {R : Type 0} → Option (TypedClient R) → Option R
get_rest_client none = none
get_rest_client (some c) = some c.rest_client
