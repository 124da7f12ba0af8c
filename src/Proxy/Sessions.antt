-- ===== src/Proxy/Sessions.antt =====
-- `_BoundedThreadingMixIn` of fault_proxy/dns_fault_proxy.py over `socketserver`: one semaphore of
-- `max_sessions` permits that the TCP and the UDP server share, and a thread for each session.
pub mod Bounds
mod Tests
use dns_server_lan_fixtures.Prelude.{
  ℕ, zero, suc, ◌+◌, ◌-◌, Bool, List, [], ◌∷◌, ◌++◌, Text, codes, length, ltb, ◌==◌, if◌then◌else◌,
}
use dns_server_lan_fixtures.Proxy.Scenario.{normal}
use dns_server_lan_fixtures.Proxy.Log.{LogEntry, log_event}
use dns_server_lan_fixtures.Proxy.Access.{Network, Address, permitted}

pub data Transport : Type 0 where
  tcp udp : Transport

abbrev pub transport_name : Transport → Text
transport_name tcp = codes "tcp"
transport_name udp = codes "udp"

pub record Session : Type 0 where
  pub transport : Transport
  pub client : Address

-- `shut` counts the requests that were closed with no session.
pub record Server : Type 0 where
  pub allowed : List Network
  pub permits : ℕ
  pub active : List Session
  pub log : List LogEntry
  pub shut : ℕ

-- `Semaphore.release` of the exception path and of the end of a thread.
abbrev release : Server → Server
release s = record s { permits = s.permits + 1 }

-- `process_request`; `spawned` says whether the thread could be started.
unfoldable pub process_request : Transport → Address → Bool → Server → Server
unfolding log_event
process_request t client spawned s =
    let held : Server = record s { permits = s.permits - 1 } in
    if s.permits == 0
    then record s {
      log = s.log ++ log_event (codes "rejected") (transport_name t) normal (codes "overload") ∷ [];
      shut = s.shut + 1;
    }
    else if spawned
    then record held { active = (record { transport = t; client = client }) ∷ held.active }
    else record (release held) { shut = s.shut + 1 }

-- `verify_request`, and the request that `socketserver` makes of its answer.
unfoldable pub receive : Transport → Address → Bool → Server → Server
unfolding log_event process_request
receive t client spawned s =
    if permitted s.allowed client then process_request t client spawned s else record s {
      log = s.log ++ log_event (codes "rejected") (transport_name t) normal (codes "access") ∷ [];
      shut = s.shut + 1;
    }

remove_nth : ℕ → List Session → List Session
remove_nth i [] = []
remove_nth zero (x ∷ xs) = xs
remove_nth (suc i) (x ∷ xs) = x ∷ remove_nth i xs

-- `process_request_thread` of the session at `i` ends, by a return or an exception.
unfoldable pub finish : ℕ → Server → Server
unfolding remove_nth
finish i s =
    if ltb i (length s.active) then record (release s) { active = remove_nth i s.active } else s

-- What happens to the two servers, in the order in which the semaphore sees it.
pub data Event : Type 0 where
  request : Transport → Address → Bool → Event
  ended : ℕ → Event

unfoldable pub on_event : Event → Server → Server
on_event (request t client spawned) s = receive t client spawned s
on_event (ended i) s = finish i s

unfoldable pub run_events : List Event → Server → Server
run_events [] s = s
run_events (e ∷ es) s = run_events es (on_event e s)

-- The state in which `run` starts the servers.
abbrev pub started : List Network → ℕ → Server
started allowed max_sessions = record {
  allowed = allowed;
  permits = max_sessions;
  active = [];
  log = [];
  shut = 0;
}
