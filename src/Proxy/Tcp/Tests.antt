-- ===== src/Proxy/Tcp/Tests.antt =====
-- A TCP connection at concrete inputs.
use dns_server_lan_fixtures.Prelude.{
  ℕ, zero, suc, ◌≤◌, ◌≡◌, refl, none, List, [], ◌∷◌, ◌++◌, arith, Bytes, Text, codes, eq_bytes,
  rstrip_dots, split_dots, join_dots, length, drop,
}
use dns_server_lan_fixtures.Outcome.{Error, returned, raised, uncaught}
use dns_server_lan_fixtures.Proxy.Scenario.{
  duplicate_response, Scenario, normal, value, scenario_for,
}
use dns_server_lan_fixtures.Proxy.Socket.{Socket, chunk, written, available}
use dns_server_lan_fixtures.Proxy.Question.{parse_question_name, question_end, query_scenario}
use dns_server_lan_fixtures.Proxy.Name.{decode_name, pointer_of, display}
use dns_server_lan_fixtures.Proxy.Frame.{recv_exact}
use dns_server_lan_fixtures.Proxy.Frame.Send.{framed, stream_of}
use dns_server_lan_fixtures.Proxy.Forward.{forward_tcp}
use dns_server_lan_fixtures.Proxy.Fresh.Name.{is_fresh, has_suffix}
use dns_server_lan_fixtures.Proxy.Fresh.Plain.{plain_dns, plain_labels}
use dns_server_lan_fixtures.Proxy.Tcp.{Env, completed, failed, tcp_handle}
use dns_server_lan_fixtures.Proxy.Tcp.Exchanges.{
  Exchange, Forwards, AllForward, answered, asked, lines,
}
use dns_server_lan_fixtures.Proxy.Tcp.Pipeline.{
  tcp_handle_pipelined, tcp_handle_fault, tcp_handle_limit,
}
use dns_server_lan_fixtures.Proxy.Tcp.Limits.{tcp_handle_bounded}

-- A query for <label>.transport.example.test.
abbrev query_for : Text → Bytes
query_for label =
    0 ∷ 7 ∷ 1 ∷ 0 ∷ 0 ∷ 1 ∷ 0 ∷ 0 ∷ 0 ∷ 0 ∷ 0 ∷ 0 ∷ (length label ∷ label)
    ++ (9 ∷ codes "transport"
        ++ (7 ∷ codes "example" ++ (4 ∷ codes "test" ++ (0 ∷ 0 ∷ 1 ∷ 0 ∷ 1 ∷ []))))

abbrev response : Bytes
response = 0 ∷ 7 ∷ 0x81 ∷ 0x80 ∷ 0 ∷ 0 ∷ 0 ∷ 0 ∷ 0 ∷ 0 ∷ 0 ∷ 0 ∷ []

abbrev env : Env
env = record {
  dns = plain_dns;
  connect = λ _. returned (record {
    arrivals = chunk 0 (12 ∷ 0 ∷ []) ∷ chunk 7 (drop 2 response) ∷ [];
    trace = [];
    breaks = none;
  });
  chunk_delay = 50000;
  stall_time = 2000000;
  io_timeout = 5000000;
}

abbrev normal_exchange : Exchange
normal_exchange = record { query = query_for (codes "normal"); response = response }

normal_Forwards : (round : ℕ) → Forwards env round normal_exchange normal
unfolding is_fresh has_suffix plain_labels query_scenario parse_question_name question_end
    decode_name pointer_of display scenario_for value forward_tcp recv_exact split_dots join_dots
    rstrip_dots eq_bytes
normal_Forwards round = record {
  ordinary = refl;
  dispatched = refl;
  answering = (λ e. cc e, λ e. cc e);
  forwarded = refl;
  asks = omega arith;
  answers = omega arith;
  fits = omega arith;
}

abbrev duplicate_exchange : Exchange
duplicate_exchange = record { query = query_for (codes "duplicate-response"); response = response }

duplicate_Forwards : (round : ℕ) → Forwards env round duplicate_exchange duplicate_response
unfolding is_fresh has_suffix plain_labels query_scenario parse_question_name question_end
    decode_name pointer_of display scenario_for value forward_tcp recv_exact split_dots join_dots
    rstrip_dots eq_bytes
duplicate_Forwards round = record {
  ordinary = refl;
  dispatched = refl;
  answering = (λ e. cc e, λ e. cc e);
  forwarded = refl;
  asks = omega arith;
  answers = omega arith;
  fits = omega arith;
}

abbrev repeated : ℕ → List Exchange
repeated zero = []
repeated (suc n) = normal_exchange ∷ repeated n

repeated-AllForward : (n round : ℕ) → AllForward env round (repeated n)
repeated-AllForward zero round = tt
repeated-AllForward (suc n) round =
    ((normal, refl, normal_Forwards round), repeated-AllForward n (suc round))

-- A client that sends the bytes in one chunk and closes.
abbrev sending : Bytes → Socket
sending [] = record { arrivals = []; trace = []; breaks = none }
sending (b ∷ bs) = record { arrivals = chunk b bs ∷ []; trace = []; breaks = none }

tcp_handle_pipelined_example :
    (last : Scenario) × ((tcp_handle env (sending (asked (repeated 2)))).0 ≡ returned tt)
    × (written (tcp_handle env (sending (asked (repeated 2)))).1.client.trace
        ≡ answered (repeated 2))
    × ((tcp_handle env (sending (asked (repeated 2)))).1.log
        ≡ lines env 0 (repeated 2) (repeated-AllForward 2 0) ++ failed last (codes "eof") ∷ [])
tcp_handle_pipelined_example =
    tcp_handle_pipelined env (repeated 2) (sending (asked (repeated 2))) (repeated-AllForward 2 0)
      (omega arith) refl refl refl

-- A query for "duplicate-response" between two others: the last is not read.
abbrev three_asked : Bytes
three_asked =
    asked (repeated 1) ++ (framed duplicate_exchange.query ++ framed normal_exchange.query)

tcp_handle_fault_example :
    ((tcp_handle env (sending three_asked)).0 ≡ returned tt)
    × (written (tcp_handle env (sending three_asked)).1.client.trace
        ≡ answered (repeated 1) ++ stream_of duplicate_response response)
    × ((tcp_handle env (sending three_asked)).1.log
        ≡ lines env 0 (repeated 1) (repeated-AllForward 1 0) ++ completed duplicate_response ∷ [])
    × (available (tcp_handle env (sending three_asked)).1.client.arrivals
        ≡ framed normal_exchange.query)
tcp_handle_fault_example =
    tcp_handle_fault env (repeated 1) duplicate_exchange duplicate_response
      (framed normal_exchange.query) (sending three_asked) (repeated-AllForward 1 0)
      (duplicate_Forwards 1) refl (omega arith) refl refl

abbrev too_many : Bytes
too_many = asked (repeated 64) ++ framed normal_exchange.query

tcp_handle_limit_example :
    ((tcp_handle env (sending too_many)).0 ≡ returned tt)
    × (written (tcp_handle env (sending too_many)).1.client.trace ≡ answered (repeated 64))
    × ((tcp_handle env (sending too_many)).1.log
        ≡ lines env 0 (repeated 64) (repeated-AllForward 64 0))
    × (available (tcp_handle env (sending too_many)).1.client.arrivals
        ≡ framed normal_exchange.query)
tcp_handle_limit_example =
    tcp_handle_limit env (repeated 64) (framed normal_exchange.query) (sending too_many)
      (repeated-AllForward 64 0) refl refl refl

tcp_handle_bounded_example :
    (length (tcp_handle env (sending three_asked)).1.log ≤ 65)
    × ((e : Error) → (tcp_handle env (sending three_asked)).0 ≡ raised e → e ≡ uncaught)
tcp_handle_bounded_example = tcp_handle_bounded env (sending three_asked)
