-- ===== src/Proxy/Tcp.antt =====
-- `_TCPHandler.handle` of fault_proxy/dns_fault_proxy.py.
pub mod Exchanges
pub mod Pipeline
pub mod Limits
mod Tests
use dns_server_lan_fixtures.Proxy.Fresh.Reply.{answer_fresh}
use dns_server_lan_fixtures.Prelude.{
  ℕ, zero, suc, ◌+◌, ◌-◌, ◌*◌, ◌/◌, ◌%◌, ◌^◌, ◌≤◌, ◌<◌, min, max, bit_and, bit_or, ◌≡◌, refl, sym,
  ap, ◌∙◌, ◌≡⟨◌⟩◌, ◌∎, ◌≢◌, ◌↔◌, ◌⊎◌, inl, inr, Bool, true, false, not, ◌&&◌, ◌||◌, Option, none,
  some, List, [], ◌∷◌, ◌++◌, map, append-nil, append_assoc, flatten, arith, Bytes, Text, codes,
  to_lower, lower, lower_idem, eq_bytes, eq_bytes_iff, mem_bytes, rstrip_dots, split_dots,
  join_dots, join_dots-split_dots, split_dots-cons, u16, u16_at, u16_parts, length, get_or, take,
  drop, slice, All, length-append, take-append-drop, length-take, length-drop, take_ge, drop_ge,
  take-append, drop-append, take-append_of_length, drop-append_of_length, take-append_left,
  drop-append_left, drop-drop, get_or-append, get_or-drop, length-map, get_or-append_head,
  get_or-append_left, All-append, All-get_or, List-cases, slice-append, take-append_right,
  drop-append_right, ltb, leb, ◌==◌, if◌then◌else◌, ltb→lt, lt→ltb, le→ltb, leb→le, le→leb, lt→leb,
  ==_iff, ==_refl, Bool-cases, Option-cases,
}
use dns_server_lan_fixtures.Outcome.{
  Outcome, returned, raised, format, timed_out, eof, network, uncaught,
}
use dns_server_lan_fixtures.Proxy.Scenario.{
  Scenario, normal, force_tcp, close_before_response, stall,
}
use dns_server_lan_fixtures.Proxy.Socket.{Socket, Io, Arrival, sleep}
use dns_server_lan_fixtures.Proxy.Frame.{recv_frame, send_frame}
use dns_server_lan_fixtures.Proxy.Calls.{reading}
use dns_server_lan_fixtures.Proxy.Question.{query_scenario}
use dns_server_lan_fixtures.Proxy.Forward.{forward_tcp}
use dns_server_lan_fixtures.Proxy.Log.{LogEntry, log_event}
use dns_server_lan_fixtures.Proxy.Fresh.Name.{is_fresh}
use dns_server_lan_fixtures.Proxy.Fresh.Dns.{Dnspython}
use dns_server_lan_fixtures.Proxy.Fresh.Transport.{serve_fresh_tcp}

-- What a handler works with. Times are in microseconds.
pub record Env : Type 0 where
  pub dns : Dnspython
  -- The connection to the upstream server that the n-th round makes.
  pub connect : ℕ → Outcome Socket
  pub chunk_delay : ℕ
  pub stall_time : ℕ
  pub io_timeout : ℕ

-- The client's socket, the variable `scenario`, and the lines that were printed.
pub record Connection : Type 0 where
  pub client : Socket
  pub scenario : Scenario
  pub log : List LogEntry

abbrev pub Step : Type 0 → Type 0
Step A = Connection → Outcome A × Connection

abbrev pub after_step :
    {A B : Type 0} → (A → Step B) → Outcome A × Connection → Outcome B × Connection
after_step rest (raised e, c) = (raised e, c)
after_step rest (returned x, c) = rest x c

-- A call on the client's socket.
abbrev pub on_client : {A : Type 0} → Io A → Step A
on_client call c = let (out, s) = call c.client in (out, record c { client = s })

abbrev pub logged : LogEntry → Connection → Connection
logged e c = record c { log = c.log ++ e ∷ [] }

-- What a round leads to: `return`, or the next round.
pub data Next : Type 0 where
  again closed : Next

abbrev pub next_if : Bool → Next
next_if true = again
next_if false = closed

-- `if scenario not in (Scenario.NORMAL, Scenario.FORCE_TCP): return`
abbrev pub next_after : Scenario → Next
next_after normal = again
next_after force_tcp = again
next_after _ = closed

abbrev pub completed : Scenario → LogEntry
completed scenario = log_event (codes "completed") (codes "tcp") scenario (codes "complete")

abbrev pub failed : Scenario → Text → LogEntry
failed scenario reason = log_event (codes "failed") (codes "tcp") scenario reason

abbrev pub after_round : Step (Unit {0}) → Next → Step (Unit {0})
after_round rest again c = rest c
after_round rest closed c = (returned tt, c)

module _ (env : Env) where
  -- From `send_frame` on.
  unfoldable pub tcp_reply : Scenario → Bytes → Step Next
  unfolding send_frame log_event
  tcp_reply scenario response c =
      after_step (λ _ c'. (returned (next_after scenario), logged (completed scenario) c'))
        (on_client (send_frame response scenario env.chunk_delay) c)

  -- From the tests of the scenario on.
  unfoldable pub tcp_scenario : ℕ → Bytes → Scenario → Step Next
  unfolding forward_tcp tcp_reply
  tcp_scenario round query close_before_response c = (returned closed, c)
  tcp_scenario round query stall c =
      (returned closed, record c { client = sleep env.stall_time c.client })
  tcp_scenario round query scenario c =
      after_step (tcp_reply scenario) (forward_tcp (env.connect round) query, c)

  unfoldable pub tcp_query : ℕ → Bytes → Step Next
  unfolding is_fresh serve_fresh_tcp query_scenario tcp_scenario
  tcp_query round query c =
      if is_fresh env.dns query
      then after_step (λ reuse c'. (returned (next_if reuse), c'))
          (on_client
            (serve_fresh_tcp env.dns (λ q. answer_fresh env.dns q true) query env.chunk_delay
              env.io_timeout)
            c)
      else after_step
          (λ scenario c'. tcp_scenario round query scenario (record c' { scenario = scenario }))
          (query_scenario query, c)

  unfoldable pub tcp_round : ℕ → Step Next
  unfolding recv_frame tcp_query
  tcp_round round c = after_step (tcp_query round) (on_client (reading recv_frame) c)

  -- `rounds` more rounds, the first of them number `round`.
  unfoldable pub tcp_loop : ℕ → ℕ → Step (Unit {0})
  unfolding tcp_round
  tcp_loop zero round c = (returned tt, c)
  tcp_loop (suc rounds) round c =
      after_step (after_round (tcp_loop rounds (suc round))) (tcp_round round c)

-- The `except` clauses.
abbrev pub tcp_caught : Outcome (Unit {0}) × Connection → Outcome (Unit {0}) × Connection
tcp_caught (returned _, c) = (returned tt, c)
tcp_caught (raised (format _), c) = (returned tt, logged (failed c.scenario (codes "format")) c)
tcp_caught (raised timed_out, c) = (returned tt, logged (failed c.scenario (codes "timeout")) c)
tcp_caught (raised eof, c) = (returned tt, logged (failed c.scenario (codes "eof")) c)
tcp_caught (raised network, c) = (returned tt, logged (failed c.scenario (codes "network")) c)
tcp_caught (raised uncaught, c) = (raised uncaught, c)

abbrev pub accepted : Socket → Connection
accepted client = record { client = client; scenario = normal; log = [] }

abbrev pub max_tcp_queries : ℕ
max_tcp_queries = 64

unfoldable pub tcp_handle : Env → Socket → Outcome (Unit {0}) × Connection
unfolding tcp_loop
tcp_handle env client = tcp_caught (tcp_loop env max_tcp_queries 0 (accepted client))
