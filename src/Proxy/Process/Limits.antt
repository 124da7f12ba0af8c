-- ===== src/Proxy/Process/Limits.antt =====
-- The sessions of the process that `main` of fault_proxy/dns_fault_proxy.py starts.
use dns_server_lan_fixtures.Prelude.{
  ◌≤◌, inl, inr, Bool, true, false, ◌&&◌, Option, List, [], ◌∷◌, Text, length, All, All-append,
  if◌then◌else◌, Option-cases, if_both,
}
use dns_server_lan_fixtures.Outcome.{Error, returned, raised, network, uncaught}
use dns_server_lan_fixtures.Proxy.Access.{Network}
use dns_server_lan_fixtures.Proxy.Access.Allowed.{IsRestricted}
use dns_server_lan_fixtures.Proxy.Config.{Environ, Floats, Config, from_env, has_colon}
use dns_server_lan_fixtures.Proxy.Config.Ranges.{IsValid, from_env-IsValid}
use dns_server_lan_fixtures.Proxy.Sessions.{Event, Transport, tcp, udp, started, run_events}
use dns_server_lan_fixtures.Proxy.Sessions.Bounds.{sessions_bounded}
use dns_server_lan_fixtures.Proxy.Process.{
  Effect, both_families, handles_signals, serves, listening, System, Run, done, attempt,
  followed_by, make_server, start_thread, stop, run, main,
}

-- A server starts with 1 to 1024 permits, and `events` leave no more sessions than those.
abbrev pub Guarded : List Event → Effect → Type 0
Guarded events (serves t s) =
    (1 ≤ s.permits)
    × (s.permits ≤ 1024)
    × All IsRestricted s.allowed
    × (length (run_events events s).active ≤ s.permits)
Guarded events _ = Unit

module _ (events : List Event) where
  attempt-Guarded :
      (allowed : Bool) (refusal : Error) (e : Effect)
      → Guarded events e
      → All (Guarded events) ((attempt allowed refusal e).1)
  attempt-Guarded true refusal e guarded = (guarded, _)
  attempt-Guarded false refusal e guarded = _

  option-Guarded :
      (allowed : Bool) (t : Transport)
      → All (Guarded events) (if allowed then both_families t ∷ [] else [])
  option-Guarded true t = (_, _)
  option-Guarded false t = _

  followed_by-Guarded :
      (first rest : Run)
      → All (Guarded events) (first.1)
      → All (Guarded events) (rest.1)
      → All (Guarded events) ((followed_by first rest).1)
  followed_by-Guarded (raised e, effects) rest a b = a
  followed_by-Guarded (returned _, effects) (outcome, more) a b =
      All-append (Guarded events) effects more a b

  module _ {fl : Floats} (system : System) (config : Config fl) (valid : IsValid fl config) where
    make_server-Guarded : (t : Transport) → All (Guarded events) ((make_server system config t).1)
    unfolding make_server
    make_server-Guarded t =
        followed_by-Guarded _ _ (attempt-Guarded (system.binds t) network _ _)
          (option-Guarded (has_colon config.listen_host && system.sets_option t) t)

    serves-Guarded :
        (t : Transport) → Guarded events (serves t (started config.allowed config.max_sessions))
    serves-Guarded t =
        let (low, high) = valid.sessions_range in
        (
          low,
          high,
          valid.clients_restricted,
          (sessions_bounded config.allowed config.max_sessions events).0,
        )

    wait-Guarded : All (Guarded events) (stop system config)
    unfolding stop
    wait-Guarded = (_, (_, (_, (_, (_, (_, (_, (_, _))))))))

    run-Guarded : All (Guarded events) ((run system config).1)
    unfolding run
    run-Guarded =
        let waits = done (listening config.listen_host config.listen_port ∷ stop system config) in
        let serves_udp = followed_by (start_thread system config udp) waits in
        let serves_tcp = followed_by (start_thread system config tcp) serves_udp in
        let signals = followed_by (done (handles_signals ∷ [])) serves_tcp in
        let opens_udp = followed_by (make_server system config udp) signals in
        followed_by-Guarded (make_server system config tcp) opens_udp (make_server-Guarded tcp) (
          followed_by-Guarded (make_server system config udp) signals (make_server-Guarded udp) (
            followed_by-Guarded (done (handles_signals ∷ [])) serves_tcp (_, _)
              (followed_by-Guarded (start_thread system config tcp) serves_udp
                (attempt-Guarded (system.starts tcp) uncaught _ (serves-Guarded tcp))
                (followed_by-Guarded (start_thread system config udp) waits
                  (attempt-Guarded (system.starts udp) uncaught _ (serves-Guarded udp))
                  (_, wait-Guarded)))))

-- In every environment and on every system: each server that `main` starts has 1 to 1024 permits and
-- no allowed network with a prefix of length 0, and whatever requests arrive at the two servers and
-- whatever threads fail to start or end, no more sessions run than it has permits.
pub main-Guarded :
    (fl : Floats) (ip_network : Text → Option Network) (getenv : Environ) (system : System)
    (healthcheck : Bool) (events : List Event)
    → All (Guarded events) ((main fl ip_network getenv system healthcheck).1)
unfolding main
main-Guarded fl ip_network getenv system healthcheck events =
    elim (Option-cases (from_env fl ip_network getenv)) [
      | inl fails ↦ rw (main, fails) _
      | inr (config, accepted) ↦
          rw (main, accepted)
            (if_both (λ (r : Run). All (Guarded events) (r.1)) healthcheck _ _ _
              (run-Guarded events system config (from_env-IsValid fl ip_network getenv accepted)))
    ]
