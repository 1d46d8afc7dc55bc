-- ===== src/Clients/Groups/GreetingV2.antt =====
-- crd-getting-started/pkg/client/clientset_generated/clientset/typed/greeting/v2/greeting_client.go
use cloud_native_tour.Common.{codes, Option, ◌⊎◌}
use cloud_native_tour.Clients.Config.{GroupVersion, Config, ClientGo}
use cloud_native_tour.Clients.Typed as Typed

-- SchemeGroupVersion
abbrev pub greeting_v2 : GroupVersion
greeting_v2 = record { group = codes "greeting.foen.ye"; version = codes "v2" }

abbrev pub Client : Type 0 → Type 0
Client R = Typed.TypedClient R

module _ {Q B N X H R D E : Type 0} (go : ClientGo Q B N X H R D E) where
  abbrev pub set_config_defaults : Config Q B N X → Config Q B N X
  set_config_defaults config = Typed.set_config_defaults go greeting_v2 config

  abbrev pub new_for_config_and_client : Config Q B N X → H → E ⊎ Client R
  new_for_config_and_client c h = Typed.new_for_config_and_client go greeting_v2 c h

  abbrev pub new_for_config : Config Q B N X → E ⊎ Client R
  new_for_config c = Typed.new_for_config go greeting_v2 c

  abbrev pub new_for_config_or_die : Config Q B N X → Option (Client R)
  new_for_config_or_die c = Typed.new_for_config_or_die go greeting_v2 c

abbrev pub new_typed : {R : Type 0} → R → Client R
new_typed c = Typed.new_typed c

abbrev pub get_rest_client : {R : Type 0} → Option (Client R) → Option R
get_rest_client c = Typed.get_rest_client c
