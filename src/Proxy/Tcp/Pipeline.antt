-- ===== src/Proxy/Tcp/Pipeline.antt =====
-- A whole connection: queries that are forwarded, and what ends it.
use dns_server_lan_fixtures.Prelude.{
  ℕ, suc, ◌+◌, ◌-◌, ◌≤◌, ◌≡◌, refl, sym, ap, ◌∙◌, none, List, [], ◌∷◌, ◌++◌, append-nil, arith,
  Bytes, codes, length,
}
use dns_server_lan_fixtures.Outcome.{returned, raised, eof}
use dns_server_lan_fixtures.Proxy.Scenario.{Scenario}
use dns_server_lan_fixtures.Proxy.Socket.{Socket, written, available, ending}
use dns_server_lan_fixtures.Proxy.Frame.{recv_frame}
use dns_server_lan_fixtures.Proxy.Frame.Whole.{recv_frame-frame_of}
use dns_server_lan_fixtures.Proxy.Frame.Send.{framed, stream_of}
use dns_server_lan_fixtures.Proxy.Tcp.{
  Env, Connection, closed, next_after, completed, failed, tcp_round, tcp_loop, tcp_handle,
  tcp_caught, accepted,
}
use dns_server_lan_fixtures.Proxy.Tcp.Exchanges.{
  Exchange, Forwards, Moved, AllForward, asked, answered, lines, tcp_round-Moved,
  tcp_loop-AllForward, Moved-then,
}

-- The rounds that are left when the queries are served.
tcp_handle-AllForward :
    (env : Env) (xs : List Exchange) (n : ℕ) (rest : Bytes) (s : Socket)
    → (h : AllForward env 0 xs) → length xs + n ≡ 64
    → available s.arrivals ≡ asked xs ++ rest
    → s.breaks ≡ none
    → (c : Connection) × (tcp_handle env s ≡ tcp_caught (tcp_loop env n (length xs) c))
      × Moved (accepted s) c (answered xs) rest (lines env 0 xs h)
unfolding tcp_handle
tcp_handle-AllForward env xs n rest s h size e free =
    let (c, loops, m) = tcp_loop-AllForward env n 0 xs rest (accepted s) h e free in
    let zero_more : length xs + 0 ≡ length xs = omega arith in
    (c, ap tcp_caught (rw (size, zero_more) at loops), m)

-- The peer closes where a query would come.
tcp_loop_ended :
    (env : Env) (n round : ℕ) (c : Connection)
    → available c.client.arrivals ≡ []
    → ending c.client.arrivals ≡ eof
    → tcp_loop env (suc n) round c ≡ (
      raised eof,
      record c { client = record c.client { arrivals = (recv_frame c.client.arrivals).1 } },
    )
unfolding tcp_loop tcp_round
tcp_loop_ended env n round c none_left ends =
    let nothing : (recv_frame c.client.arrivals).0 ≡ raised eof =
      recv_frame-frame_of c.client.arrivals ∙ rw (none_left, ends) refl in
    rw nothing refl

-- On a connection that does not break, up to 63 queries that are not fresh, in whatever chunks
-- they come, that are forwarded and answered by the upstream server with 1 to 65535 bytes and
-- whose scenarios leave the connection open are answered in order with those responses, one line
-- is printed for each, and the peer's close ends the connection with a line of reason "eof".
pub tcp_handle_pipelined :
    (env : Env) (xs : List Exchange) (s : Socket)
    → (h : AllForward env 0 xs) → length xs ≤ 63
    → available s.arrivals ≡ asked xs
    → ending s.arrivals ≡ eof
    → s.breaks ≡ none
    → (last : Scenario) × ((tcp_handle env s).0 ≡ returned tt)
      × (written (tcp_handle env s).1.client.trace ≡ written s.trace ++ answered xs)
      × ((tcp_handle env s).1.log ≡ lines env 0 xs h ++ failed last (codes "eof") ∷ [])
tcp_handle_pipelined env xs s h few e ends free =
    let n = 63 - length xs in
    let (c, runs, m) =
      tcp_handle-AllForward env xs (suc n) [] s h (omega arith) (e ∙ sym (append-nil (asked xs)))
        free in
    let all =
      runs
      ∙ ap tcp_caught (tcp_loop_ended env n (length xs) c m.left_over (m.same_ending ∙ ends)) in
    (
      c.scenario,
      ap (λ r. r.0) all,
      ap (λ r. written r.1.client.trace) all ∙ m.sent,
      ap (λ r. r.1.log) all ∙ ap (λ l. l ++ failed c.scenario (codes "eof") ∷ []) m.printed,
    )

tcp_loop_closed :
    (env : Env) (n round : ℕ) (x : Exchange) (scenario : Scenario) (rest : Bytes) (c : Connection)
    → Forwards env round x scenario
    → next_after scenario ≡ closed
    → available c.client.arrivals ≡ framed x.query ++ rest
    → c.client.breaks ≡ none
    → (c' : Connection) × (tcp_loop env (suc n) round c ≡ (returned tt, c'))
      × Moved c c' (stream_of scenario x.response) rest (completed scenario ∷ [])
unfolding tcp_loop
tcp_loop_closed env n round x scenario rest c f ends e free =
    let (c', runs, m, _) = tcp_round-Moved env round x scenario rest c f e free in
    (c', rw (runs, ends) refl, m)

-- On a connection that does not break, after up to 63 forwarded queries that leave it open, a
-- query that is forwarded and whose scenario ends the connection is answered with the scenario's
-- stream of the upstream server's response, one line is printed for each query, and what follows
-- is not read.
pub tcp_handle_fault :
    (env : Env) (xs : List Exchange) (x : Exchange) (scenario : Scenario) (rest : Bytes)
    (s : Socket)
    → (h : AllForward env 0 xs) → Forwards env (length xs) x scenario
    → next_after scenario ≡ closed
    → length xs ≤ 63
    → available s.arrivals ≡ asked xs ++ (framed x.query ++ rest)
    → s.breaks ≡ none
    → ((tcp_handle env s).0 ≡ returned tt)
      × (written (tcp_handle env s).1.client.trace
          ≡ written s.trace ++ (answered xs ++ stream_of scenario x.response))
      × ((tcp_handle env s).1.log ≡ lines env 0 xs h ++ completed scenario ∷ [])
      × (available (tcp_handle env s).1.client.arrivals ≡ rest)
tcp_handle_fault env xs x scenario rest s h f ends few e free =
    let n = 63 - length xs in
    let (c, runs, m) =
      tcp_handle-AllForward env xs (suc n) (framed x.query ++ rest) s h (omega arith) e free in
    let (c', loops, m') =
      tcp_loop_closed env n (length xs) x scenario rest c f ends m.left_over m.unbroken in
    let all = runs ∙ ap tcp_caught loops in
    let moved = Moved-then m m' in
    (
      ap (λ r. r.0) all,
      ap (λ r. written r.1.client.trace) all ∙ moved.sent,
      ap (λ r. r.1.log) all ∙ moved.printed,
      ap (λ r. available r.1.client.arrivals) all ∙ moved.left_over,
    )

-- On a connection that does not break, after 64 forwarded queries that leave it open the handler
-- returns: all are answered, nothing more is read and no line is printed for the end.
pub tcp_handle_limit :
    (env : Env) (xs : List Exchange) (rest : Bytes) (s : Socket)
    → (h : AllForward env 0 xs) → length xs ≡ 64
    → available s.arrivals ≡ asked xs ++ rest
    → s.breaks ≡ none
    → ((tcp_handle env s).0 ≡ returned tt)
      × (written (tcp_handle env s).1.client.trace ≡ written s.trace ++ answered xs)
      × ((tcp_handle env s).1.log ≡ lines env 0 xs h)
      × (available (tcp_handle env s).1.client.arrivals ≡ rest)
unfolding tcp_loop
tcp_handle_limit env xs rest s h size e free =
    let (c, all, m) = tcp_handle-AllForward env xs 0 rest s h (omega arith) e free in
    (
      ap (λ r. r.0) all,
      ap (λ r. written r.1.client.trace) all ∙ m.sent,
      ap (λ r. r.1.log) all ∙ m.printed,
      ap (λ r. available r.1.client.arrivals) all ∙ m.left_over,
    )
