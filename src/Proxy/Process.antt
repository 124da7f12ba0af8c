-- ===== src/Proxy/Process.antt =====
-- `_make_server`, `run` and `main` of fault_proxy/dns_fault_proxy.py, as the calls that they make of
-- the system, in their order. Whether the system refuses a call is a parameter.
pub mod Lifecycle
pub mod Limits
mod Tests
use dns_server_lan_fixtures.Prelude.{
  ℕ, ◌&&◌, Bool, Option, none, some, List, [], ◌∷◌, ◌++◌, Bytes, Text, codes, if◌then◌else◌,
}
use dns_server_lan_fixtures.Outcome.{Error, Outcome, returned, raised, network, uncaught}
use dns_server_lan_fixtures.Proxy.Access.{Network}
use dns_server_lan_fixtures.Proxy.Config.{Environ, Floats, Config, from_env, has_colon}
use dns_server_lan_fixtures.Proxy.Forward.{Attempt, run_healthcheck}
use dns_server_lan_fixtures.Proxy.Log.{LogEntry, log_event}
use dns_server_lan_fixtures.Proxy.Scenario.{normal}
use dns_server_lan_fixtures.Proxy.Sessions.{Transport, tcp, udp, Server, started}

-- A call that was not refused. `ipv6` tells the two address families apart.
pub data Effect : Type 0 where
  opened : (t : Transport) (ipv6 : Bool) (host : Text) (port : ℕ) → Effect
  both_families : Transport → Effect
  handles_signals : Effect
  -- `start` of the thread that runs `serve_forever`, with the state that the sessions share.
  serves : Transport → Server → Effect
  listening : (host : Text) (port : ℕ) → Effect
  stop_requested : Effect
  shut_down closed joined : Transport → Effect
  logged : LogEntry → Effect

-- What the system allows, and the sockets of the health check.
pub record System : Type 0 where
  pub binds : Transport → Bool
  pub sets_option : Transport → Bool
  pub starts : Transport → Bool
  pub addresses : (host : Text) (port : ℕ) → Bytes → Outcome (List Attempt)

-- How a part of the program ends, and the calls it has made.
abbrev pub Run : Type 0
Run = Outcome (Unit {0}) × List Effect

abbrev pub done : List Effect → Run
done effects = (returned tt, effects)

-- The statements behind a part: an exception leaves the function at once.
abbrev pub followed_by : Run → Run → Run
followed_by (raised e, effects) rest = (raised e, effects)
followed_by (returned _, effects) (outcome, more) = (outcome, effects ++ more)

abbrev pub attempt : (allowed : Bool) (refusal : Error) (effect : Effect) → Run
attempt allowed refusal effect = if allowed then done (effect ∷ []) else (raised refusal, [])

module _ {fl : Floats} (system : System) (config : Config fl) where
  -- The shared semaphore and the configuration of the servers.
  abbrev pub shared : Server
  shared = started config.allowed config.max_sessions

  -- An `OSError` of `setsockopt` is passed over, one of the server's constructor is not.
  unfoldable pub make_server : Transport → Run
  make_server t =
      let ipv6 = has_colon config.listen_host in
      followed_by
        (attempt (system.binds t) network (opened t ipv6 config.listen_host config.listen_port))
        (done (if ipv6 && system.sets_option t then both_families t ∷ [] else []))

  -- A thread that cannot be started raises a `RuntimeError`.
  abbrev pub start_thread : Transport → Run
  start_thread t = attempt (system.starts t) uncaught (serves t shared)

  -- The `finally` clause, behind the wait.
  abbrev pub stop : List Effect
  unfolding log_event
  stop =
      stop_requested
      ∷ shut_down tcp
      ∷ shut_down udp
      ∷ closed tcp
      ∷ closed udp
      ∷ joined tcp
      ∷ joined udp
      ∷ logged (log_event (codes "stopped") (codes "both") normal (codes "shutdown"))
      ∷ []

  unfoldable pub run : Run
  unfolding make_server log_event
  run = followed_by (make_server tcp) (
      followed_by (make_server udp) (
        followed_by (done (handles_signals ∷ [])) (
          followed_by (start_thread tcp) (
            followed_by (start_thread udp)
              (done (listening config.listen_host config.listen_port ∷ stop))))))

-- A `SystemExit` is `uncaught`.
abbrev pub with_config : {fl : Floats} → System → (healthcheck : Bool) → Option (Config fl) → Run
unfolding run run_healthcheck
with_config system healthcheck none = (raised uncaught, [])
with_config system healthcheck (some config) =
    if healthcheck
    then (run_healthcheck (system.addresses config.healthcheck_host config.listen_port), [])
    else run system config

-- `healthcheck` says whether the option "--healthcheck" is given.
unfoldable pub main :
    (fl : Floats) (ip_network : Text → Option Network)
    → Environ
    → System
    → (healthcheck : Bool) → Run
unfolding run run_healthcheck from_env
main fl ip_network getenv system healthcheck =
    with_config system healthcheck (from_env fl ip_network getenv)
