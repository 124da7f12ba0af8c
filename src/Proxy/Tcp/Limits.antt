-- ===== src/Proxy/Tcp/Limits.antt =====
-- What a connection can cost: rounds, connections to the upstream server and lines.
use dns_server_lan_fixtures.Proxy.Fresh.Reply.{answer_fresh}
use dns_server_lan_fixtures.Prelude.{
  ℕ, zero, suc, ◌+◌, ◌≤◌, ◌≡◌, inl, inr, Bool, true, [], ◌∷◌, arith, Bytes, codes, length,
  length-append, Bool-cases,
}
use dns_server_lan_fixtures.Outcome.{
  Error, Outcome, returned, raised, format, timed_out, eof, network, uncaught,
}
use dns_server_lan_fixtures.Proxy.Tcp.{
  tcp_loop, tcp_handle, tcp_caught, accepted, again, closed, after_round, next_if, failed, Env,
  Connection, Step, after_step, on_client, Next, completed, tcp_reply, tcp_scenario, tcp_query,
  tcp_round,
}
use dns_server_lan_fixtures.Proxy.Scenario.{Scenario, close_before_response, stall}
use dns_server_lan_fixtures.Proxy.Socket.{Socket}
use dns_server_lan_fixtures.Proxy.Frame.{recv_frame, send_frame}
use dns_server_lan_fixtures.Proxy.Calls.{reading}
use dns_server_lan_fixtures.Proxy.Question.{query_scenario}
use dns_server_lan_fixtures.Proxy.Forward.{forward_tcp}
use dns_server_lan_fixtures.Proxy.Fresh.Name.{is_fresh}
use dns_server_lan_fixtures.Proxy.Fresh.Transport.{serve_fresh_tcp}

-- At most `n` lines more than `m`.
abbrev Prints : {A : Type 0} → ℕ → ℕ → Outcome A × Connection → Type 0
Prints m n out = length (out.1).log ≤ m + n

after_step-Prints :
    {A B : Type 0} (m n : ℕ) (rest : A → Step B) (out : Outcome A × Connection)
    → length (out.1).log ≤ m
    → ((x : A) (c : Connection) → length c.log ≤ m → Prints m n (rest x c))
    → Prints m n (after_step rest out)
after_step-Prints m n rest (raised e, c) h k = omega arith
after_step-Prints m n rest (returned x, c) h k = k x c h

tcp_reply-Prints :
    (env : Env) (scenario : Scenario) (response : Bytes) (m : ℕ) (c : Connection)
    → length c.log ≤ m
    → Prints m 1 (tcp_reply env scenario response c)
unfolding tcp_reply
tcp_reply-Prints env scenario response m c h =
    after_step-Prints m 1 _ (on_client (send_frame response scenario env.chunk_delay) c) h
      (λ _ c' k. omega (arith, length-append c'.log (completed scenario ∷ [])))

tcp_scenario-Prints :
    (env : Env) (round : ℕ) (query : Bytes) (scenario : Scenario) (m : ℕ) (c : Connection)
    → length c.log ≤ m
    → Prints m 1 (tcp_scenario env round query scenario c)
unfolding tcp_scenario
tcp_scenario-Prints env round query close_before_response m c h = omega arith
tcp_scenario-Prints env round query stall m c h = omega arith
tcp_scenario-Prints env round query scenario m c h =
    after_step-Prints m 1 (tcp_reply env scenario) (forward_tcp (env.connect round) query, c) h
      (λ response c' k. tcp_reply-Prints env scenario response m c' k)

reuse-Prints :
    (m : ℕ) (out : Outcome Bool × Connection)
    → length (out.1).log ≤ m
    → Prints m 1 (after_step (λ reuse c. (returned (next_if reuse), c)) out)
reuse-Prints m (raised e, c) h = omega arith
reuse-Prints m (returned reuse, c) h = omega arith

tcp_query-Prints :
    (env : Env) (round : ℕ) (query : Bytes) (m : ℕ) (c : Connection)
    → length c.log ≤ m
    → Prints m 1 (tcp_query env round query c)
unfolding tcp_query
tcp_query-Prints env round query m c h = elim (Bool-cases (is_fresh env.dns query)) [
  | inl fresh ↦
      let out =
        on_client
          (serve_fresh_tcp env.dns (λ q. answer_fresh env.dns q true) query env.chunk_delay
            env.io_timeout)
          c in
      rw fresh (reuse-Prints m out h)
  | inr ordinary ↦ rw ordinary (
      after_step-Prints m 1 _ (query_scenario query, c) h
        (λ scenario c' k.
          tcp_scenario-Prints env round query scenario m (record c' { scenario = scenario }) k))
]

tcp_round-Prints :
    (env : Env) (round m : ℕ) (c : Connection)
    → length c.log ≤ m
    → Prints m 1 (tcp_round env round c)
unfolding tcp_round
tcp_round-Prints env round m c h =
    after_step-Prints m 1 (tcp_query env round) (on_client (reading recv_frame) c) h
      (λ query c' k. tcp_query-Prints env round query m c' k)

more_rounds-Prints :
    (m n : ℕ) (rest : Step (Unit {0})) (out : Outcome Next × Connection)
    → Prints m 1 out
    → ((c : Connection) → length c.log ≤ m + 1 → Prints (m + 1) n (rest c))
    → Prints m (suc n) (after_step (after_round rest) out)
more_rounds-Prints m n rest (raised e, c) h k = omega arith
more_rounds-Prints m n rest (returned closed, c) h k = omega arith
more_rounds-Prints m n rest (returned again, c) h k = omega (arith, k c h)

tcp_loop-Prints :
    (env : Env) (rounds round m : ℕ) (c : Connection)
    → length c.log ≤ m
    → Prints m rounds (tcp_loop env rounds round c)
unfolding tcp_loop
tcp_loop-Prints env zero round m c h = omega arith
tcp_loop-Prints env (suc rounds) round m c h =
    more_rounds-Prints m rounds (tcp_loop env rounds (suc round)) (tcp_round env round c)
      (tcp_round-Prints env round m c h)
      (λ c' k. tcp_loop-Prints env rounds (suc round) (m + 1) c' k)

tcp_caught-Prints :
    (m n : ℕ) (out : Outcome (Unit {0}) × Connection)
    → Prints m n out
    → Prints m (n + 1) (tcp_caught out)
      × ((e : Error) → (tcp_caught out).0 ≡ raised e → e ≡ uncaught)
tcp_caught-Prints m n (returned _, c) h = (omega arith, λ e k. absurd (cc k))
tcp_caught-Prints m n (raised (format f), c) h = (
  omega (arith, length-append c.log (failed c.scenario (codes "format") ∷ [])),
  λ e k. absurd (cc k),
)
tcp_caught-Prints m n (raised timed_out, c) h = (
  omega (arith, length-append c.log (failed c.scenario (codes "timeout") ∷ [])),
  λ e k. absurd (cc k),
)
tcp_caught-Prints m n (raised eof, c) h = (
  omega (arith, length-append c.log (failed c.scenario (codes "eof") ∷ [])),
  λ e k. absurd (cc k),
)
tcp_caught-Prints m n (raised network, c) h = (
  omega (arith, length-append c.log (failed c.scenario (codes "network") ∷ [])),
  λ e k. absurd (cc k),
)
tcp_caught-Prints m n (raised uncaught, c) h = (omega arith, λ e k. cc k)

-- A connection prints at most 65 lines, whatever the client, the upstream server and the fresh
-- fixtures do, and raises only what no `except` clause names.
pub tcp_handle_bounded :
    (env : Env) (client : Socket)
    → (length (tcp_handle env client).1.log ≤ 65)
      × ((e : Error) → (tcp_handle env client).0 ≡ raised e → e ≡ uncaught)
unfolding tcp_handle
tcp_handle_bounded env client =
    let (few, only) =
      tcp_caught-Prints 0 64 (tcp_loop env 64 0 (accepted client))
        (tcp_loop-Prints env 64 0 0 (accepted client) (omega arith)) in
    (few, only)
