-- ===== src/Proxy/Udp.antt =====
-- `_UDPHandler.handle` of fault_proxy/dns_fault_proxy.py.
pub mod Replies
pub mod Fresh
pub mod Scenarios
mod Tests
use dns_server_lan_fixtures.Prelude.{
  ℕ, zero, suc, ◌+◌, ◌-◌, ◌*◌, ◌/◌, ◌%◌, ◌^◌, ◌≤◌, ◌<◌, min, max, bit_and, bit_or, ◌≡◌, refl, sym,
  ap, ◌∙◌, ◌≡⟨◌⟩◌, ◌∎, ◌≢◌, ◌↔◌, ◌⊎◌, inl, inr, Bool, true, false, not, ◌&&◌, ◌||◌, Option, none,
  some, List, [], ◌∷◌, ◌++◌, map, append-nil, append_assoc, flatten, arith, Bytes, Text, codes,
  to_lower, lower, lower_idem, eq_bytes, eq_bytes_iff, mem_bytes, rstrip_dots, split_dots,
  join_dots, join_dots-split_dots, split_dots-cons, u16, u16_at, u16_parts, length, get_or, take,
  drop, slice, All, length-append, take-append-drop, length-take, length-drop, take_ge, drop_ge,
  take-append, drop-append, take-append_of_length, drop-append_of_length, take-append_left,
  drop-append_left, drop-drop, get_or-append, get_or-drop, length-map, get_or-append_head,
  get_or-append_left, All-append, All-get_or, List-cases, slice-append, take-append_right,
  drop-append_right, and_left, and_right, and_true, ltb, leb, ◌==◌, if◌then◌else◌, ltb→lt, lt→ltb,
  le→ltb, leb→le, le→leb, lt→leb, ==_iff, ==_refl, Bool-cases, Option-cases,
}
use dns_server_lan_fixtures.Outcome.{
  FormatError, Error, Outcome, returned, raised, format, timed_out, eof, network, uncaught, ◌>>=◌,
  ◌>>◌, reject_if, bind-eq-returned, returned_injective, transaction_id_range, query_type_range,
  query_label_ascii, query_label_length, query_name_length, truncated_name, truncated_pointer,
  pointer_out_of_bounds, pointer_loop, label_length_bits, truncated_label, label_ascii,
  excessive_depth, header_truncated, question_count, truncated_question, zero_length_frame,
  payload_length, health_header, health_id, health_not_response, health_not_authoritative,
  upstream_header, upstream_id,
}
use dns_server_lan_fixtures.Proxy.Fresh.Reply.{answer_fresh}
use dns_server_lan_fixtures.Proxy.Scenario.{
  Scenario, normal, force_tcp, close_before_response, stall, delayed,
}
use dns_server_lan_fixtures.Proxy.Question.{query_scenario, make_truncated_response}
use dns_server_lan_fixtures.Proxy.Forward.{Attempt, forward_udp}
use dns_server_lan_fixtures.Proxy.Log.{LogEntry, log_event}
use dns_server_lan_fixtures.Proxy.Fresh.Name.{is_fresh}
use dns_server_lan_fixtures.Proxy.Fresh.Dns.{Dnspython}

-- What a handler works with.
pub record Env : Type 0 where
  pub dns : Dnspython
  -- dnspython's response to a query with additional records, with TC and AA set
  pub truncated : Bytes → Outcome Bytes
  -- The upstream server's addresses, each with what its socket does for a query.
  pub addresses : Bytes → Outcome (List Attempt)
  -- sock.sendto(response, self.client_address)
  pub sendto : Bytes → Outcome (Unit {0})
  pub chunk_delay : ℕ

-- The datagrams that were sent, the time slept, the variable `scenario` and the lines printed.
pub record Session : Type 0 where
  pub sent : List Bytes
  pub waited : ℕ
  pub scenario : Scenario
  pub log : List LogEntry

abbrev pub Step : Type 0
Step = Session → Outcome (Unit {0}) × Session

abbrev pub after_value : {A : Type 0} → (A → Step) → Outcome A → Step
after_value rest (raised e) c = (raised e, c)
after_value rest (returned x) c = rest x c

abbrev pub logged : LogEntry → Session → Session
logged e c = record c { log = c.log ++ e ∷ [] }

abbrev pub sent_also : Bytes → Session → Session
sent_also response c = record c { sent = c.sent ++ response ∷ [] }

abbrev pub completed : Scenario → LogEntry
completed scenario = log_event (codes "completed") (codes "udp") scenario (codes "complete")

abbrev pub failed : Scenario → Text → LogEntry
failed scenario reason = log_event (codes "failed") (codes "udp") scenario reason

module _ (env : Env) where
  -- `if response: sock.sendto(…)` and the return.
  abbrev pub udp_fresh : Bytes → Step
  udp_fresh [] c = (returned tt, c)
  udp_fresh (b ∷ bs) c =
      after_value (λ _ c'. (returned tt, sent_also (b ∷ bs) c')) (env.sendto (b ∷ bs)) c

  -- The last two lines of the `try`.
  abbrev pub udp_reply : Scenario → Bytes → Step
  udp_reply scenario response c =
      after_value (λ _ c'. (returned tt, logged (completed scenario) (sent_also response c')))
        (env.sendto response) c

  abbrev pub udp_forward : Scenario → Bytes → Step
  udp_forward scenario query c =
      after_value (udp_reply scenario) (forward_udp (env.addresses query) query) c

  -- From the tests of the scenario on.
  unfoldable pub udp_scenario : Bytes → Scenario → Step
  unfolding make_truncated_response forward_udp log_event
  udp_scenario query close_before_response c = (returned tt, c)
  udp_scenario query stall c = (returned tt, c)
  udp_scenario query force_tcp c =
      after_value (udp_reply force_tcp) (make_truncated_response env.truncated query) c
  udp_scenario query delayed c =
      udp_forward delayed query (record c { waited = c.waited + env.chunk_delay })
  udp_scenario query scenario c = udp_forward scenario query c

  unfoldable pub udp_query : Bytes → Step
  unfolding is_fresh query_scenario udp_scenario
  udp_query query c =
      if is_fresh env.dns query
      then after_value udp_fresh (answer_fresh env.dns query false) c
      else after_value
          (λ scenario c'. udp_scenario query scenario (record c' { scenario = scenario }))
          (query_scenario query) c

-- The `except` clauses. `EOFError` is not among them, and no call in the `try` raises it.
abbrev pub udp_caught : Outcome (Unit {0}) × Session → Outcome (Unit {0}) × Session
udp_caught (returned _, c) = (returned tt, c)
udp_caught (raised (format _), c) = (returned tt, logged (failed c.scenario (codes "format")) c)
udp_caught (raised timed_out, c) = (returned tt, logged (failed c.scenario (codes "timeout")) c)
udp_caught (raised network, c) = (returned tt, logged (failed c.scenario (codes "network")) c)
udp_caught (raised eof, c) = (raised eof, c)
udp_caught (raised uncaught, c) = (raised uncaught, c)

abbrev pub started : Session
started = record { sent = []; waited = 0; scenario = normal; log = [] }

unfoldable pub udp_handle : Env → Bytes → Outcome (Unit {0}) × Session
unfolding udp_query
udp_handle env query = udp_caught (udp_query env query started)
