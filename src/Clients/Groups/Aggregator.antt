-- ===== src/Clients/Groups/Aggregator.antt =====
-- kube-aggregator/pkg/client/clientset_generated/clientset/clientset.go
use cloud_native_tour.Common.{Option, ◌⊎◌}
use cloud_native_tour.Clients.Config.{Config, ClientGo}
use cloud_native_tour.Clients.Clientset as Both
use cloud_native_tour.Clients.Groups.RegistrationV1.{registration_v1}
use cloud_native_tour.Clients.Groups.RegistrationV1beta1.{registration_v1beta1}

abbrev pub Clientset : Type 0 → Type 0 → Type 0
Clientset R D = Both.Clientset R D

abbrev pub discovery : {R D : Type 0} → Option (Clientset R D) → Option D
discovery c = Both.discovery c

module _ {Q B N X H R D E : Type 0} (go : ClientGo Q B N X H R D E) where
  abbrev pub new_for_config_and_client : Config Q B N X → H → E ⊎ Clientset R D
  new_for_config_and_client c h =
      Both.new_for_config_and_client go registration_v1 registration_v1beta1 c h

  abbrev pub new_for_config : Config Q B N X → E ⊎ Clientset R D
  new_for_config c = Both.new_for_config go registration_v1 registration_v1beta1 c

  abbrev pub new_for_config_or_die : Config Q B N X → Option (Clientset R D)
  new_for_config_or_die c = Both.new_for_config_or_die go registration_v1 registration_v1beta1 c

  abbrev pub new : R → Clientset R D
  new c = Both.new go c
