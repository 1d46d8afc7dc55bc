-- ===== src/Registration/V1beta1/Types.antt =====
-- kube-aggregator/pkg/apis/registration/v1beta1/types.go
use cloud_native_tour.Registration.V1.Types as V1

abbrev pub ServiceReference : Type 0
ServiceReference = V1.ServiceReference

abbrev pub ApiServiceSpec : Type 0
ApiServiceSpec = V1.ApiServiceSpec

abbrev pub ApiServiceCondition : Type 0 → Type 0
ApiServiceCondition M = V1.ApiServiceCondition M

abbrev pub ApiServiceStatus : Type 0 → Type 0
ApiServiceStatus M = V1.ApiServiceStatus M

abbrev pub ApiService : Type 0 → Type 0 → Type 0 → Type 0
ApiService T O M = V1.ApiService T O M

abbrev pub ApiServiceList : Type 0 → Type 0 → Type 0 → Type 0 → Type 0
ApiServiceList T O L M = V1.ApiServiceList T O L M
