-- ===== src/Proxy/Udp/Scenarios.antt =====
-- How the scenarios of a UDP request are served.
use dns_server_lan_fixtures.Prelude.{
  ℕ, ◌≡◌, refl, ◌⊎◌, inl, inr, false, [], ◌∷◌, Bytes, u16_at, length,
}
use dns_server_lan_fixtures.Prelude.Int.{ℤ, pos}
use dns_server_lan_fixtures.Outcome.{Outcome, returned}
use dns_server_lan_fixtures.Proxy.Query.{build_query}
use dns_server_lan_fixtures.Proxy.Scenario.{
  Scenario, force_tcp, close_before_response, stall, delayed,
}
use dns_server_lan_fixtures.Proxy.Question.{question_end, query_scenario}
use dns_server_lan_fixtures.Proxy.Question.RoundTrip.{
  asked_name, fault_name, query_scenario-fault_name,
}
use dns_server_lan_fixtures.Proxy.Question.Truncated.{
  OnlyQuestionOf, make_truncated_response-build_query,
}
use dns_server_lan_fixtures.Proxy.Fresh.Name.{is_fresh}
use dns_server_lan_fixtures.Proxy.Udp.{
  Env, Session, udp_scenario, udp_query, udp_handle, started, completed,
}

-- The end of a request that was answered with one datagram.
abbrev pub replied : Scenario → Bytes → ℕ → Outcome (Unit {0}) × Session
replied scenario reply waited = (
  returned tt,
  record { sent = reply ∷ []; waited = waited; scenario = scenario; log = completed scenario ∷ [] },
)

-- A query that `build_query` makes for the name of "force-tcp", that is not fresh, is answered
-- with a response that has TC and AA set, the query's transaction and its question, byte for byte, and
-- no records, whatever the upstream server does, where replies can be sent.
pub udp_handle-force_tcp :
    (env : Env) (qtype transaction_id : ℤ) {w : Bytes}
    → build_query (fault_name force_tcp) qtype transaction_id ≡ returned w
    → is_fresh env.dns w ≡ false
    → ((reply : Bytes) → env.sendto reply ≡ returned tt)
    → (r : Bytes) × (udp_handle env w ≡ replied force_tcp r 0)
      × (question_end r ≡ returned (asked_name (fault_name force_tcp), length r))
      × (pos (u16_at r 0) ≡ transaction_id)
      × (u16_at r 2 ≡ 0x8700)
      × OnlyQuestionOf w r
unfolding udp_handle udp_query udp_scenario
udp_handle-force_tcp env qtype transaction_id {w} h ordinary sends =
    let (r, made, read, id, flags, question) =
      make_truncated_response-build_query env.truncated (fault_name force_tcp) qtype transaction_id
        h in
    (
      r,
      rw (ordinary, query_scenario-fault_name force_tcp qtype transaction_id h, made, sends r) refl,
      read,
      id,
      flags,
      question,
    )

-- The time that `DELAYED` waits.
abbrev pub delay_of : Env → Scenario → ℕ
delay_of env delayed = env.chunk_delay
delay_of env _ = 0

-- A query that is not fresh, of the scenario "close-before-response" or "stall", gets no reply
-- and prints no line.
pub udp_handle_silent :
    (env : Env) (query : Bytes) (scenario : Scenario)
    → is_fresh env.dns query ≡ false
    → query_scenario query ≡ returned scenario
    → (scenario ≡ close_before_response) ⊎ (scenario ≡ stall)
    → udp_handle env query ≡ (returned tt, record started { scenario = scenario })
unfolding udp_handle udp_query udp_scenario
udp_handle_silent env query scenario ordinary dispatched (inl e) = rw (ordinary, dispatched, e) refl
udp_handle_silent env query scenario ordinary dispatched (inr e) = rw (ordinary, dispatched, e) refl
