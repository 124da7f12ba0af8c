-- ===== src/Proxy/Forward/Tests.antt =====
-- Forwarding at concrete inputs.
use dns_server_lan_fixtures.Proxy.Frame.{recv_exact}
use dns_server_lan_fixtures.Prelude.{◌≡◌, refl, ◌↔◌, none, List, [], ◌∷◌, arith, Bytes, drop}
use dns_server_lan_fixtures.Outcome.{returned, raised, format, timed_out, network, upstream_id}
use dns_server_lan_fixtures.Proxy.Socket.{chunk, Socket, available, ending}
use dns_server_lan_fixtures.Proxy.Frame.Whole.{frame_of}
use dns_server_lan_fixtures.Proxy.Forward.{Attempt, forward_tcp, forward_udp, run_healthcheck}
use dns_server_lan_fixtures.Proxy.Forward.Upstream.{
  Answers, FirstAnswer, here, later, forward_udp_iff, forward_tcp_iff,
}
use dns_server_lan_fixtures.Proxy.Forward.Health.{
  health_query, Healthy, SomeHealthy, RaisesOs, run_healthcheck_iff,
}
use dns_server_lan_fixtures.Proxy.Forward.Health

abbrev query : Bytes
query = 0xAB ∷ 0xCD ∷ 1 ∷ 0 ∷ 0 ∷ 0 ∷ 0 ∷ 0 ∷ 0 ∷ 0 ∷ 0 ∷ 0 ∷ []

abbrev response : Bytes
response = 0xAB ∷ 0xCD ∷ 0x84 ∷ 0 ∷ 0 ∷ 0 ∷ 0 ∷ 0 ∷ 0 ∷ 0 ∷ 0 ∷ 0 ∷ []

-- The first address is unreachable.
abbrev attempts : List Attempt
attempts = raised network ∷ returned response ∷ []

forward_udp_iff_example :
    (forward_udp (returned attempts) query ≡ returned response)
    ↔ FirstAnswer query response attempts
forward_udp_iff_example = forward_udp_iff query response attempts

forwarded_second : forward_udp (returned attempts) query ≡ returned response
forwarded_second =
    forward_udp_iff_example.1
      (later refl (here refl (record { whole_header = omega arith; same_id = refl })))

-- A response to another query is refused, and the next address is not asked.
other_id :
    forward_udp (returned (returned (0 ∷ 1 ∷ drop 2 response) ∷ returned response ∷ [])) query
    ≡ raised (format upstream_id)
unfolding forward_udp
other_id = refl

-- The response comes in two chunks.
abbrev upstream : Socket
upstream = record {
  arrivals = chunk 0 (12 ∷ 0xAB ∷ []) ∷ chunk 0xCD (drop 2 response) ∷ [];
  trace = [];
  breaks = none;
}

forward_tcp_iff_example : (forward_tcp (returned upstream) query ≡ returned response) ↔ (
    (frame_of (available upstream.arrivals) (ending upstream.arrivals) ≡ returned response)
    × Answers query response)
forward_tcp_iff_example = forward_tcp_iff query response upstream (omega arith) refl

forwarded_tcp : forward_tcp (returned upstream) query ≡ returned response
unfolding forward_tcp recv_exact
forwarded_tcp = refl

abbrev health_response : Bytes
health_response = 0x63 ∷ 0x13 ∷ 0x85 ∷ 0 ∷ drop 4 health_query

abbrev health_attempts : List Attempt
health_attempts = raised timed_out ∷ returned query ∷ returned health_response ∷ []

run_healthcheck_iff_example :
    (run_healthcheck (λ _. returned health_attempts) ≡ returned tt) ↔ SomeHealthy health_attempts
run_healthcheck_iff_example =
    run_healthcheck_iff (λ _. returned health_attempts) health_attempts refl (refl, (tt, (tt, tt)))

healthy : run_healthcheck (λ _. returned health_attempts) ≡ returned tt
healthy = run_healthcheck_iff_example.1 (
    Health.later (
      Health.later (
        Health.here (record {
          whole_header = omega arith;
          same_id = refl;
          is_response = λ e. ground arith;
          authoritative = λ e. ground arith;
        }))))
