-- ===== src/Proxy/Config/Tests.antt =====
-- The configuration at concrete environments.
use dns_server_lan_fixtures.Prelude.{
  ℕ, ◌*◌, ◌/◌, ◌≡◌, refl, Option, none, some, [], ◌∷◌, ◌++◌, Text, codes, eq_bytes, leb,
  if◌then◌else◌,
}
use dns_server_lan_fixtures.Prelude.Int.{ℤ, pos}
use dns_server_lan_fixtures.Proxy.Access.{
  Network, v4, allowed_clients, client_items, parse_all, any_unrestricted, loopback_clients,
}
use dns_server_lan_fixtures.Proxy.Config.{
  Environ, Floats, Config, int, decimal, bounded_int, bounded_float, from_env,
}
use dns_server_lan_fixtures.Proxy.Config.Ranges.{IsValid, from_env-IsValid}

abbrev pub thousands : Option ℤ → Option ℕ
thousands (some (pos n)) = some (n * 1000)
thousands _ = none

abbrev pub value_or_100 : Option ℕ → ℕ
value_or_100 none = 100
value_or_100 (some n) = n

-- Whole numbers and 0.1, in thousandths.
abbrev pub floats : Floats
floats = record {
  Float = ℕ;
  float = λ text. thousands (int text);
  at_most = leb;
  literal = λ text. value_or_100 (thousands (int text));
  thousandth = λ n. n / 1000;
}

abbrev pub getenv : Environ
getenv name = if eq_bytes name (codes "LISTEN_PORT") then some (codes " 5_3") else none

abbrev pub ip_network : Text → Option Network
ip_network _ = some (record { base = v4 0x0A000001; prefix_length = 32 })

abbrev pub configured : Config floats
configured = record {
  listen_host = codes "::";
  listen_port = 53;
  upstream_host = codes "authoritative";
  upstream_port = 5353;
  chunk_delay_seconds = 50;
  stall_seconds = 2000;
  io_timeout_seconds = 5000;
  max_sessions = 64;
  healthcheck_host = codes "::1";
  allowed =
      loopback_clients
      ++ (record { base = v4 0x0A000001; prefix_length = 32 })
        ∷ (record { base = v4 0x0A000001; prefix_length = 32 })
        ∷ [];
}

configured_eq : from_env floats ip_network getenv ≡ some configured
unfolding from_env bounded_int bounded_float int decimal eq_bytes allowed_clients client_items
    parse_all any_unrestricted
configured_eq = refl

from_env-IsValid_example : IsValid floats configured
from_env-IsValid_example = from_env-IsValid floats ip_network getenv configured_eq

port_accepted : bounded_int getenv (codes "LISTEN_PORT") 5301 1 65535 ≡ some 53
unfolding bounded_int int eq_bytes
port_accepted = refl

negative_refused : bounded_int (λ _. some (codes "-5")) (codes "LISTEN_PORT") 5301 1 65535 ≡ none
unfolding bounded_int int
negative_refused = refl
