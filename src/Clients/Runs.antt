-- ===== src/Clients/Runs.antt =====
-- Tests of the clients against a client-go whose clients are the configs that they were made from.
use cloud_native_tour.Common.{
  ℕ, ℤ, pos, Text, codes, ◌≡◌, refl, [], Option, none, some, ltb, if◌then◌else◌, ap, inr,
}
use cloud_native_tour.Clients.Config.{GroupVersion, Config, ClientGo, ◌>>=◌, is_empty}
use cloud_native_tour.Clients.Typed.{TypedClient, with_user_agent, set_config_defaults}
use cloud_native_tour.Clients.Typed as Typed
use cloud_native_tour.Clients.Typed.Laws.{default_again}
use cloud_native_tour.Clients.Clientset.{Clientset, with_rate_limiter}
use cloud_native_tour.Clients.Clientset as Both
use cloud_native_tour.Clients.Clientset.Laws.{new_for_config_lem}
use cloud_native_tour.Clients.Groups.Aggregator.{
  new_for_config, new_for_config_and_client, new_for_config_or_die,
}
use cloud_native_tour.Clients.Groups.RegistrationV1.{registration_v1}
use cloud_native_tour.Clients.Groups.RegistrationV1beta1.{registration_v1beta1}

-- QPS is a number, a rate limiter the pair of QPS and Burst, and every error a text.
abbrev SomeConfig : Type 0
SomeConfig = Config ℕ (ℕ × ℤ) ℕ ℕ

-- The discovery client sets a missing user agent itself.
abbrev with_agent : SomeConfig → SomeConfig
with_agent c = record c {
  user_agent = if is_empty c.user_agent then codes "agent" else c.user_agent;
}

abbrev echo : ClientGo ℕ (ℕ × ℤ) ℕ ℕ Text SomeConfig SomeConfig Text
echo = record {
  default_user_agent = codes "agent";
  codec = 1;
  http_client_for = λ c. inr c.user_agent;
  rest_client_for = λ c h. inr c;
  discovery_client_for = λ c h. inr (with_agent c);
  new_discovery_client = λ r. r;
  new_rate_limiter = λ q b. (q, b);
  is_positive = λ q. ltb 0 q;
  error = λ t. t;
}

echo_discovery :
    (c : SomeConfig) (h : Text)
    → echo.discovery_client_for (with_user_agent echo c) h ≡ echo.discovery_client_for c h
unfolding with_user_agent
echo_discovery c h =
    ap (λ u. inr (record c { user_agent = u })) (default_again c.user_agent (codes "agent"))

abbrev config : ℤ → SomeConfig
config b = record {
  user_agent = [];
  group_version = none;
  api_path = [];
  negotiated_serializer = none;
  rate_limiter = none;
  qps = 5;
  burst = b;
  other = 0;
}

-- A config as the client of `gv` gets it.
abbrev given : Option GroupVersion → Text → Option ℕ → SomeConfig
given gv path codec = record (config (pos 10)) {
  user_agent = codes "agent";
  group_version = gv;
  api_path = path;
  negotiated_serializer = codec;
  rate_limiter = some (5, pos 10);
}

abbrev clients : Clientset SomeConfig SomeConfig
clients = record {
  discovery_client = given none [] none;
  first_client = record { rest_client = given (some registration_v1) (codes "/apis") (some 1) };
  second_client = record {
    rest_client = given (some registration_v1beta1) (codes "/apis") (some 1);
  };
}

new_for_config_test : new_for_config echo (config (pos 10)) ≡ inr clients
unfolding Both.new_for_config Both.new_for_config_and_client with_user_agent with_rate_limiter
    set_config_defaults Typed.new_for_config_and_client
new_for_config_test = refl

burst_test : new_for_config_or_die echo (config (pos 0)) ≡ none
unfolding Both.new_for_config Both.new_for_config_and_client Both.new_for_config_or_die
    with_user_agent with_rate_limiter
burst_test = refl

and_client_test : new_for_config_and_client echo (config (pos 10)) (codes "h") ≡ inr clients
unfolding Both.new_for_config_and_client with_user_agent with_rate_limiter set_config_defaults
    Typed.new_for_config_and_client
and_client_test = refl

new_for_config_lem_example :
    Both.new_for_config echo registration_v1 registration_v1beta1 (config (pos 10)) ≡ (
      echo.http_client_for (with_user_agent echo (config (pos 10))) >>= λ h.
      Both.new_for_config_and_client echo registration_v1 registration_v1beta1 (config (pos 10)) h)
new_for_config_lem_example =
    new_for_config_lem echo echo_discovery registration_v1 registration_v1beta1 (config (pos 10))
