-- ===== src/Proxy/Udp/Replies.antt =====
-- What a UDP request is answered with.
use dns_server_lan_fixtures.Prelude.{
  ◌+◌, ◌≡◌, refl, ◌≢◌, arith, inl, inr, true, false, List, [], ◌∷◌, Bytes, Bool-cases,
}
use dns_server_lan_fixtures.Outcome.{
  Outcome, returned, raised, format, timed_out, eof, network, uncaught,
}
use dns_server_lan_fixtures.Proxy.Fresh.Reply.{answer_fresh}
use dns_server_lan_fixtures.Proxy.Scenario.{
  Scenario, force_tcp, close_before_response, stall, delayed,
}
use dns_server_lan_fixtures.Proxy.Question.{query_scenario, make_truncated_response}
use dns_server_lan_fixtures.Proxy.Forward.{Attempt, forward_udp}
use dns_server_lan_fixtures.Proxy.Forward.Upstream.{FirstAnswer, forward_udp-FirstAnswer}
use dns_server_lan_fixtures.Proxy.Fresh.Name.{is_fresh}
use dns_server_lan_fixtures.Proxy.Udp.{
  Env, Session, Step, after_value, udp_fresh, udp_reply, udp_forward, udp_scenario, udp_query,
  udp_caught, udp_handle, started,
}

-- The scenarios of which a UDP query goes to the upstream server.
abbrev pub IsForwarded : Scenario → Type 0
IsForwarded s = (s ≢ force_tcp) × (s ≢ close_before_response) × (s ≢ stall)

-- What may be sent for a query: nothing; the reply of the fresh fixtures to a fresh name; the
-- truncated response to one of "force-tcp"; or, for the other scenarios but two, the response that
-- the first address of the upstream server whose socket does not fail sends, if it answers the query.
pub data Justified (env : Env) (query : Bytes) : List Bytes → Type 0 where
  silent : Justified env query []
  fresh :
      {reply : Bytes}
      → is_fresh env.dns query ≡ true
      → answer_fresh env.dns query false ≡ returned reply
      → reply ≢ []
      → Justified env query (reply ∷ [])
  truncation :
      {reply : Bytes}
      → is_fresh env.dns query ≡ false
      → query_scenario query ≡ returned force_tcp
      → make_truncated_response env.truncated query ≡ returned reply
      → Justified env query (reply ∷ [])
  forwarded :
      {reply : Bytes} {scenario : Scenario} {attempts : List Attempt}
      → is_fresh env.dns query ≡ false
      → query_scenario query ≡ returned scenario
      → IsForwarded scenario
      → env.addresses query ≡ returned attempts
      → FirstAnswer query reply attempts
      → Justified env query (reply ∷ [])

after_value-Justified :
    {A : Type 0} (env : Env) (query : Bytes) (rest : A → Step) (out : Outcome A) (c : Session)
    → c.sent ≡ []
    → ((x : A) → out ≡ returned x → Justified env query (rest x c).1.sent)
    → Justified env query (after_value rest out c).1.sent
after_value-Justified env query rest (raised e) c h k = rw h silent
after_value-Justified env query rest (returned x) c h k = k x refl

udp_reply-Justified :
    (env : Env) (query : Bytes) (scenario : Scenario) (reply : Bytes) (c : Session)
    → c.sent ≡ []
    → Justified env query (reply ∷ [])
    → Justified env query (udp_reply env scenario reply c).1.sent
udp_reply-Justified env query scenario reply c h j =
    after_value-Justified env query _ (env.sendto reply) c h (λ _ _. rw h j)

udp_forward-Justified :
    (env : Env) (query : Bytes) (scenario : Scenario) (c : Session)
    → is_fresh env.dns query ≡ false
    → query_scenario query ≡ returned scenario
    → IsForwarded scenario
    → c.sent ≡ []
    → Justified env query (udp_forward env scenario query c).1.sent
udp_forward-Justified env query scenario c not_fresh e goes h =
    after_value-Justified env query (udp_reply env scenario)
      (forward_udp (env.addresses query) query) c h
      (λ reply sent.
        let (attempts, found, first) = forward_udp-FirstAnswer query (env.addresses query) sent in
        udp_reply-Justified env query scenario reply c h (forwarded not_fresh e goes found first))

udp_scenario-Justified :
    (env : Env) (query : Bytes) (scenario : Scenario) (c : Session)
    → is_fresh env.dns query ≡ false
    → query_scenario query ≡ returned scenario
    → c.sent ≡ []
    → Justified env query (udp_scenario env query scenario c).1.sent
unfolding udp_scenario
udp_scenario-Justified env query close_before_response c n e h = rw h silent
udp_scenario-Justified env query stall c n e h = rw h silent
udp_scenario-Justified env query force_tcp c n e h =
    after_value-Justified env query (udp_reply env force_tcp)
      (make_truncated_response env.truncated query) c h
      (λ reply made. udp_reply-Justified env query force_tcp reply c h (truncation n e made))
udp_scenario-Justified env query delayed c n e h =
    udp_forward-Justified env query delayed (record c { waited = c.waited + env.chunk_delay }) n e
      (grind arith) h
udp_scenario-Justified env query scenario c n e h =
    udp_forward-Justified env query scenario c n e (grind arith) h

udp_fresh-Justified :
    (env : Env) (query reply : Bytes) (c : Session)
    → is_fresh env.dns query ≡ true
    → answer_fresh env.dns query false ≡ returned reply
    → c.sent ≡ []
    → Justified env query (udp_fresh env reply c).1.sent
udp_fresh-Justified env query [] c is e h = rw h silent
udp_fresh-Justified env query (b ∷ bs) c is e h =
    after_value-Justified env query _ (env.sendto (b ∷ bs)) c h
      (λ _ _. rw h (fresh is e (λ empty. cc)))

udp_query-Justified :
    (env : Env) (query : Bytes) → Justified env query (udp_query env query started).1.sent
unfolding udp_query
udp_query-Justified env query = elim (Bool-cases (is_fresh env.dns query)) [
  | inl is ↦ rw is (
      after_value-Justified env query (udp_fresh env) (answer_fresh env.dns query false) started
        refl (λ reply e. udp_fresh-Justified env query reply started is e refl))
  | inr not_fresh ↦ rw not_fresh (
      after_value-Justified env query _ (query_scenario query) started refl (λ scenario e.
        udp_scenario-Justified env query scenario (record started { scenario = scenario }) not_fresh
          e refl))
]

pub udp_caught-sent : (out : Outcome (Unit {0}) × Session) → (udp_caught out).1.sent ≡ out.1.sent
udp_caught-sent (returned _, c) = refl
udp_caught-sent (raised (format _), c) = refl
udp_caught-sent (raised timed_out, c) = refl
udp_caught-sent (raised network, c) = refl
udp_caught-sent (raised eof, c) = refl
udp_caught-sent (raised uncaught, c) = refl

-- A UDP request gets at most one datagram: a reply of the fresh fixtures, that is not empty, to a fresh
-- name; else the truncated response to a query of "force-tcp", or, to a query of another scenario than
-- that, "close-before-response" and "stall", what the first address of the upstream server whose
-- socket does not fail sends, cut at 65535 bytes, where it answers the query.
pub udp_handle-Justified :
    (env : Env) (query : Bytes) → Justified env query (udp_handle env query).1.sent
unfolding udp_handle
udp_handle-Justified env query =
    rw (udp_caught-sent (udp_query env query started)) (udp_query-Justified env query)
