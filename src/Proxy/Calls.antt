-- ===== src/Proxy/Calls.antt =====
-- Statements of fault_proxy/ on a socket, in sequence, for do blocks.
use dns_server_lan_fixtures.Prelude.{ℕ, List}
use dns_server_lan_fixtures.Outcome.{Outcome, returned, raised}
use dns_server_lan_fixtures.Proxy.Socket.{Arrival, Socket, Io, sleep}

abbrev pub after_call : {A B : Type 0} → (A → Io B) → Outcome A × Socket → Outcome B × Socket
after_call rest (raised e, s) = (raised e, s)
after_call rest (returned x, s) = rest x s

infixl 5 ◌>>=◌ ◌>>◌
abbrev pub ◌>>=◌ : {A B : Type 0} → Io A → (A → Io B) → Io B
(call >>= rest) s = after_call rest (call s)

abbrev pub ◌>>◌ : {B : Type 0} → Io (Unit {0}) → Io B → Io B
(call >> rest) s = after_call (λ _. rest) (call s)

-- `return x`
abbrev pub give : {A : Type 0} → A → Io A
give x s = (returned x, s)

-- A call that does not use the socket.
abbrev pub pure_call : {A : Type 0} → Outcome A → Io A
pure_call out s = (out, s)

-- A call that only reads.
abbrev pub reading : {A : Type 0} → (List Arrival → Outcome A × List Arrival) → Io A
reading read s = let (out, rest) = read s.arrivals in (out, record s { arrivals = rest })

-- time.sleep(delay)
abbrev pub sleeping : ℕ → Io (Unit {0})
sleeping delay s = (returned tt, sleep delay s)
