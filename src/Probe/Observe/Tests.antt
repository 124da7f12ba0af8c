-- ===== src/Probe/Observe/Tests.antt =====
-- `observe` at concrete inputs.
use dns_server_lan_fixtures.Prelude.{◌≡◌, refl, inr, none, List, [], ◌∷◌, arith, Bytes, codes}
use dns_server_lan_fixtures.Outcome.{returned, timed_out}
use dns_server_lan_fixtures.Proxy.Scenario.{duplicate_response}
use dns_server_lan_fixtures.Proxy.Socket.{Socket, chunk, fails}
use dns_server_lan_fixtures.Probe.Verdict.{Observation, accepted, complaint, no_eof, evaluate}
use dns_server_lan_fixtures.Probe.Verdict.Scenarios.{expectation}
use dns_server_lan_fixtures.Probe.Frames.{request_parts}
use dns_server_lan_fixtures.Probe.Observe.{observe}
use dns_server_lan_fixtures.Probe.Observe.Report.{observe_closed_accepted, observe_open_rejected}

abbrev query : Bytes
query = 0 ∷ 7 ∷ 1 ∷ 0 ∷ 0 ∷ 1 ∷ []

-- Two frames of two bytes, in two chunks.
abbrev duplicated : Socket
duplicated = record {
  arrivals = chunk 0 (2 ∷ 5 ∷ []) ∷ chunk 6 (0 ∷ 2 ∷ 5 ∷ 6 ∷ []) ∷ [];
  trace = [];
  breaks = none;
}

abbrev split : List Bytes
split = (0 ∷ []) ∷ (6 ∷ []) ∷ query ∷ []

split_parts : request_parts (0 ∷ 6 ∷ query) (codes "split-prefix") ≡ inr split
unfolding request_parts
split_parts = refl

observe_closed_accepted_example :
    (o : Observation) × ((observe query (codes "split-prefix") 10 40 duplicated).0 ≡ returned o)
    × (evaluate o (expectation duplicate_response) 2000 ≡ accepted)
observe_closed_accepted_example =
    observe_closed_accepted duplicate_response query (5 ∷ 6 ∷ []) (codes "split-prefix") 10 40 2000
      duplicated split (omega arith) split_parts refl refl refl (omega arith) (omega arith) refl tt

-- A whole response, and no close within the client's timeout.
abbrev kept_open : Socket
kept_open = record {
  arrivals = chunk 0 (2 ∷ 5 ∷ 6 ∷ []) ∷ fails timed_out ∷ [];
  trace = [];
  breaks = none;
}

observe_open_rejected_example :
    (o : Observation) × ((observe query (codes "split-prefix") 10 4000 kept_open).0 ≡ returned o)
    × (evaluate o (codes "normal") 2000 ≡ complaint no_eof)
observe_open_rejected_example =
    observe_open_rejected query (codes "split-prefix") (codes "normal") 10 4000 2000 kept_open split
      (omega arith) split_parts refl (refl, refl)
