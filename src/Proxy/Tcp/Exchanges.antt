-- ===== src/Proxy/Tcp/Exchanges.antt =====
-- Queries on one connection that are forwarded, and the replies to them.
use dns_server_lan_fixtures.Prelude.{
  ℕ, suc, ◌+◌, ◌≤◌, ◌≡◌, refl, sym, ap, ◌∙◌, ◌≢◌, false, none, List, [], ◌∷◌, ◌++◌, append-nil,
  append_assoc, arith, Bytes, length,
}
use dns_server_lan_fixtures.Outcome.{returned}
use dns_server_lan_fixtures.Proxy.Tcp.{
  tcp_round, tcp_query, tcp_loop, again, next_after, completed, Env, Connection, after_step, logged,
  tcp_reply, tcp_scenario,
}
use dns_server_lan_fixtures.Proxy.Frame.{recv_frame, send_frame}
use dns_server_lan_fixtures.Proxy.Frame.Whole.{recv_frame-Received}
use dns_server_lan_fixtures.Proxy.Scenario.{
  normal, force_tcp, Scenario, close_before_response, stall,
}
use dns_server_lan_fixtures.Proxy.Socket.{written, available, ending}
use dns_server_lan_fixtures.Proxy.Frame.Send.{framed, stream_of, send_frame-Writes}
use dns_server_lan_fixtures.Proxy.Frame.Unread.{send_frame-arrivals}
use dns_server_lan_fixtures.Proxy.Question.{query_scenario}
use dns_server_lan_fixtures.Proxy.Forward.{forward_tcp}
use dns_server_lan_fixtures.Proxy.Log.{LogEntry}
use dns_server_lan_fixtures.Proxy.Fresh.Name.{is_fresh}

-- A query and the upstream server's response to it.
pub record Exchange : Type 0 where
  pub query : Bytes
  pub response : Bytes

-- The query is forwarded in that round, and its scenario sends a response.
pub record Forwards (env : Env) (round : ℕ) (x : Exchange) (scenario : Scenario) : Type 0 where
  pub ordinary : is_fresh env.dns x.query ≡ false
  pub dispatched : query_scenario x.query ≡ returned scenario
  pub answering : (scenario ≢ close_before_response) × (scenario ≢ stall)
  pub forwarded : forward_tcp (env.connect round) x.query ≡ returned x.response
  pub asks : 1 ≤ length x.query
  pub answers : 1 ≤ length x.response
  pub fits : length x.response ≤ 65535

-- What changed on the connection: the bytes written and the lines printed; and what is left to read.
pub record Moved (c c' : Connection) (bytes left : Bytes) (entries : List LogEntry) : Type 0 where
  pub left_over : available c'.client.arrivals ≡ left
  pub same_ending : ending c'.client.arrivals ≡ ending c.client.arrivals
  pub sent : written c'.client.trace ≡ written c.client.trace ++ bytes
  pub unbroken : c'.client.breaks ≡ none
  pub printed : c'.log ≡ c.log ++ entries

tcp_scenario-forward :
    (env : Env) (round : ℕ) (query : Bytes) (scenario : Scenario) (c : Connection)
    → (scenario ≢ close_before_response) × (scenario ≢ stall)
    → tcp_scenario env round query scenario c
      ≡ after_step (tcp_reply env scenario) (forward_tcp (env.connect round) query, c)
unfolding tcp_scenario
tcp_scenario-forward env round query close_before_response c h = absurd (h.0 refl)
tcp_scenario-forward env round query stall c h = absurd (h.1 refl)
tcp_scenario-forward env round query _ c h = refl

-- A reply is written as its scenario's stream.
tcp_reply-Moved :
    (env : Env) (scenario : Scenario) (response : Bytes) (c : Connection)
    → 1 ≤ length response
    → length response ≤ 65535
    → c.client.breaks ≡ none
    → (c' : Connection) × (tcp_reply env scenario response c ≡ (returned (next_after scenario), c'))
      × Moved c c'
          (stream_of scenario response)
          (available c.client.arrivals)
          (completed scenario ∷ [])
      × (c'.scenario ≡ c.scenario)
unfolding tcp_reply
tcp_reply-Moved env scenario response c h k free =
    let w = send_frame-Writes response scenario env.chunk_delay c.client h k in
    let out = send_frame response scenario env.chunk_delay c.client in
    let returns = (w.unbroken free).0 in
    let unread = send_frame-arrivals response scenario env.chunk_delay c.client in
    let whole : w.sent ≡ stream_of scenario response =
      sym (w.splits ∙ ap (λ u. w.sent ++ u) (w.complete returns) ∙ append-nil w.sent) in
    (
      logged (completed scenario) (record c { client = out.1 }),
      rw returns refl,
      record {
        left_over = ap available unread;
        same_ending = ap ending unread;
        sent = w.trace_grows ∙ ap (λ u. written c.client.trace ++ u) whole;
        unbroken = (w.unbroken free).1;
        printed = refl;
      },
      refl,
    )

-- What a reply prints and writes after the query was read.
Moved-read :
    {c c₁ c' : Connection} {bytes left : Bytes} {entries : List LogEntry}
    → available c₁.client.arrivals ≡ left
    → ending c₁.client.arrivals ≡ ending c.client.arrivals
    → c₁.client.trace ≡ c.client.trace
    → c₁.log ≡ c.log
    → Moved c₁ c' bytes (available c₁.client.arrivals) entries
    → Moved c c' bytes left entries
Moved-read {bytes = bytes} {entries = entries} over same trace log m = record {
  left_over = m.left_over ∙ over;
  same_ending = m.same_ending ∙ same;
  sent = m.sent ∙ ap (λ t. written t ++ bytes) trace;
  unbroken = m.unbroken;
  printed = m.printed ∙ ap (λ l. l ++ entries) log;
}

-- A round that forwards a query.
pub tcp_round-Moved :
    (env : Env) (round : ℕ) (x : Exchange) (scenario : Scenario) (rest : Bytes) (c : Connection)
    → Forwards env round x scenario
    → available c.client.arrivals ≡ framed x.query ++ rest
    → c.client.breaks ≡ none
    → (c' : Connection) × (tcp_round env round c ≡ (returned (next_after scenario), c'))
      × Moved c c' (stream_of scenario x.response) rest (completed scenario ∷ [])
      × (c'.scenario ≡ scenario)
unfolding tcp_round tcp_query
tcp_round-Moved env round x scenario rest c f e free =
    let r = recv_frame-Received x.query rest c.client.arrivals f.asks e in
    let c₁ : Connection = record c {
      client = record c.client { arrivals = (recv_frame c.client.arrivals).1 };
      scenario = scenario;
    } in
    let (c', runs, m, kept) = tcp_reply-Moved env scenario x.response c₁ f.answers f.fits free in
    (
      c',
      rw
          (
            r.result,
            f.ordinary,
            f.dispatched,
            tcp_scenario-forward env round x.query scenario c₁ f.answering,
            f.forwarded,
          )
          runs,
      Moved-read r.left r.same_ending refl refl m,
      kept,
    )

-- Queries in front of which the connection goes on, from a round on.
abbrev pub AllForward : Env → ℕ → List Exchange → Type 0
AllForward env round [] = Unit
AllForward env round (x ∷ xs) =
    ((scenario : Scenario) × (next_after scenario ≡ again) × Forwards env round x scenario)
    × AllForward env (suc round) xs

abbrev pub asked : List Exchange → Bytes
asked [] = []
asked (x ∷ xs) = framed x.query ++ asked xs

abbrev pub answered : List Exchange → Bytes
answered [] = []
answered (x ∷ xs) = framed x.response ++ answered xs

-- The lines that they print.
abbrev pub lines :
    (env : Env) (round : ℕ) (xs : List Exchange) → AllForward env round xs → List LogEntry
lines env round [] h = []
lines env round (x ∷ xs) ((scenario, _, _), h) = completed scenario ∷ lines env (suc round) xs h

stream_of-again :
    (scenario : Scenario) (payload : Bytes)
    → next_after scenario ≡ again
    → stream_of scenario payload ≡ framed payload
stream_of-again normal payload h = refl
stream_of-again force_tcp payload h = refl
stream_of-again _ payload h = absurd (cc h)

pub Moved-then :
    {c c₁ c' : Connection} {a b left left₁ : Bytes} {xs ys : List LogEntry}
    → Moved c c₁ a left₁ xs
    → Moved c₁ c' b left ys
    → Moved c c' (a ++ b) left (xs ++ ys)
Moved-then {c = c} {a = a} {b = b} {xs = xs} {ys = ys} m n = record {
  left_over = n.left_over;
  same_ending = n.same_ending ∙ m.same_ending;
  sent = n.sent ∙ ap (λ t. t ++ b) m.sent ∙ append_assoc (written c.client.trace) a b;
  unbroken = n.unbroken;
  printed = n.printed ∙ ap (λ t. t ++ ys) m.printed ∙ append_assoc c.log xs ys;
}

-- As many rounds as there are queries serve them all, in order.
pub tcp_loop-AllForward :
    (env : Env) (rounds round : ℕ) (xs : List Exchange) (rest : Bytes) (c : Connection)
    → (h : AllForward env round xs) → available c.client.arrivals ≡ asked xs ++ rest
    → c.client.breaks ≡ none
    → (c' : Connection) × (tcp_loop env (length xs + rounds) round c
        ≡ tcp_loop env rounds (length xs + round) c')
      × Moved c c' (answered xs) rest (lines env round xs h)
unfolding tcp_loop
tcp_loop-AllForward env rounds round [] rest c h e free =
    let a : 0 + rounds ≡ rounds = omega arith in
    let b : 0 + round ≡ round = omega arith in
    (
      c,
      rw (a, b) refl,
      record {
        left_over = e;
        same_ending = refl;
        sent = sym (append-nil (written c.client.trace));
        unbroken = free;
        printed = sym (append-nil c.log);
      },
    )
tcp_loop-AllForward env rounds round (x ∷ xs) rest c ((scenario, goes, f), h) e free =
    let (c₁, runs, m, _) =
      tcp_round-Moved env round x scenario (asked xs ++ rest) c f
        (e ∙ append_assoc (framed x.query) (asked xs) rest) free in
    let (c', loops, n) =
      tcp_loop-AllForward env rounds (suc round) xs rest c₁ h m.left_over m.unbroken in
    let a : suc (length xs) + rounds ≡ suc (length xs + rounds) = omega arith in
    let b : suc (length xs) + round ≡ length xs + suc round = omega arith in
    (
      c',
      rw (a, b, runs, goes) loops,
      rw (stream_of-again scenario x.response goes) at (Moved-then m n),
    )
