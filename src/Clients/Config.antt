-- ===== src/Clients/Config.antt =====
-- What the clients use of k8s.io/client-go. `Q` is float32, `B` a rate limiter, `N` a negotiated
-- serializer, `X` what else a rest.Config holds, `H` an http client, `R` a rest.Interface, `D` a discovery
-- client and `E` an error.
use cloud_native_tour.Common.{
  ℤ, pos, negsuc, zero, suc, Text, [], ◌∷◌, Option, Bool, true, false, ◌⊎◌, inl, inr,
}

-- schema.GroupVersion
pub record GroupVersion : Type 0 where
  pub group : Text
  pub version : Text

pub record Config (Q B N X : Type 0) : Type 0 where
  pub user_agent : Text
  pub group_version : Option GroupVersion
  pub api_path : Text
  pub negotiated_serializer : Option N
  pub rate_limiter : Option B
  pub qps : Q
  pub burst : ℤ
  pub other : X

pub record ClientGo (Q B N X H R D E : Type 0) : Type 0 where
  -- rest.DefaultKubernetesUserAgent
  pub default_user_agent : Text
  -- rest.CodecFactoryForGeneratedClient(...).WithoutConversion()
  pub codec : N
  -- rest.HTTPClientFor, rest.RESTClientForConfigAndClient
  pub http_client_for : Config Q B N X → E ⊎ H
  pub rest_client_for : Config Q B N X → H → E ⊎ R
  -- discovery.NewDiscoveryClientForConfigAndClient, discovery.NewDiscoveryClient
  pub discovery_client_for : Config Q B N X → H → E ⊎ D
  pub new_discovery_client : R → D
  -- flowcontrol.NewTokenBucketRateLimiter
  pub new_rate_limiter : Q → ℤ → B
  -- `> 0` of a float32
  pub is_positive : Q → Bool
  -- what fmt.Errorf makes of a text
  pub error : Text → E

-- A call and what follows unless it returns an error.
infixl 5 ◌>>=◌
abbrev pub ◌>>=◌ : {E A B : Type 0} → E ⊎ A → (A → E ⊎ B) → E ⊎ B
◌>>=◌ (inl e) next = inl e
◌>>=◌ (inr a) next = next a

abbrev pub is_empty : Text → Bool
is_empty [] = true
is_empty (c ∷ s) = false

-- `n <= 0`
abbrev pub not_positive : ℤ → Bool
not_positive (pos zero) = true
not_positive (pos (suc n)) = false
not_positive (negsuc n) = true
