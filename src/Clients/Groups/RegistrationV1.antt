-- ===== src/Clients/Groups/RegistrationV1.antt =====
-- kube-aggregator/pkg/client/clientset_generated/clientset/typed/registration/v1/registration_client.go
use cloud_native_tour.Common.{codes, Option, ◌⊎◌}
use cloud_native_tour.Clients.Config.{GroupVersion, Config, ClientGo}
use cloud_native_tour.Clients.Typed as Typed

-- SchemeGroupVersion
abbrev pub registration_v1 : GroupVersion
registration_v1 = record { group = codes "registration.foen.ye"; version = codes "v1" }

abbrev pub Client : Type 0 → Type 0
Client R = Typed.TypedClient R

module _ {Q B N X H R D E : Type 0} (go : ClientGo Q B N X H R D E) where
  abbrev pub set_config_defaults : Config Q B N X → Config Q B N X
  set_config_defaults config = Typed.set_config_defaults go registration_v1 config

  abbrev pub new_for_config_and_client : Config Q B N X → H → E ⊎ Client R
  new_for_config_and_client c h = Typed.new_for_config_and_client go registration_v1 c h

  abbrev pub new_for_config : Config Q B N X → E ⊎ Client R
  new_for_config c = Typed.new_for_config go registration_v1 c

  abbrev pub new_for_config_or_die : Config Q B N X → Option (Client R)
  new_for_config_or_die c = Typed.new_for_config_or_die go registration_v1 c

abbrev pub new_typed : {R : Type 0} → R → Client R
new_typed c = Typed.new_typed c

abbrev pub get_rest_client : {R : Type 0} → Option (Client R) → Option R
get_rest_client c = Typed.get_rest_client c
