-- ===== src/Proxy/Sessions/Tests.antt =====
-- The theorems about sessions and the allowlist at concrete inputs.
use dns_server_lan_fixtures.Prelude.{
  ℕ, ◌+◌, ◌≤◌, ◌<◌, ◌≡◌, refl, ◌⊎◌, true, false, Option, none, some, List, [], ◌∷◌, ◌++◌, Text,
  codes, eq_bytes, length, All, if◌then◌else◌,
}
use dns_server_lan_fixtures.Proxy.Scenario.{normal}
use dns_server_lan_fixtures.Proxy.Log.{log_event}
use dns_server_lan_fixtures.Proxy.Access.{
  any_unrestricted, v4, v6, Network, loopback_clients, permitted, parse_all, client_items,
  allowed_clients,
}
use dns_server_lan_fixtures.Proxy.Access.Allowed.{
  IsRestricted, allowed_clients-IsRestricted, permitted-loopback,
}
use dns_server_lan_fixtures.Proxy.Sessions.{
  tcp, udp, Server, receive, Event, request, ended, run_events, started,
}
use dns_server_lan_fixtures.Proxy.Sessions.Bounds.{sessions_bounded, receive_overload}

abbrev lab_network : Network
lab_network = record { base = v4 0xC0000200; prefix_length = 24 }

-- A parser that knows one network.
abbrev ip_network : Text → Option Network
ip_network item = if eq_bytes item (codes "192.0.2.0/24") then some lab_network else none

lab_clients :
    allowed_clients ip_network (codes " 192.0.2.0/24 ")
    ≡ some (loopback_clients ++ lab_network ∷ [])
unfolding allowed_clients client_items parse_all any_unrestricted eq_bytes
lab_clients = refl

allowed_clients-IsRestricted_example :
    (ms : List Network) × (parse_all ip_network (client_items (codes " 192.0.2.0/24 ")) ≡ some ms)
    × (loopback_clients ++ lab_network ∷ [] ≡ loopback_clients ++ ms)
    × All IsRestricted (loopback_clients ++ lab_network ∷ [])
allowed_clients-IsRestricted_example =
    allowed_clients-IsRestricted ip_network (codes " 192.0.2.0/24 ") lab_clients

permitted-loopback_example :
    (permitted (loopback_clients ++ lab_network ∷ []) (v4 0x7F000001) ≡ true)
    × (permitted (loopback_clients ++ lab_network ∷ []) (v6 1) ≡ true)
    × (permitted (loopback_clients ++ lab_network ∷ []) (v6 0xFFFF7F000001) ≡ true)
permitted-loopback_example = permitted-loopback ip_network (codes " 192.0.2.0/24 ") lab_clients

-- Two requests where one session may run, and a third one after it has ended.
abbrev history : List Event
history =
    request tcp (v4 0xC0000207) true
    ∷ request udp (v4 0xC0000208) true
    ∷ ended 0
    ∷ request udp (v4 0xC0000208) true
    ∷ []

sessions_bounded_example :
    (length (run_events history (started (lab_network ∷ []) 1)).active ≤ 1)
    × ((run_events history (started (lab_network ∷ []) 1)).permits
          + length (run_events history (started (lab_network ∷ []) 1)).active
        ≡ 1)
sessions_bounded_example = sessions_bounded (lab_network ∷ []) 1 history

lab_client_permitted : permitted (lab_network ∷ []) (v4 0xC0000207) ≡ true
unfolding permitted
lab_client_permitted = refl

stranger_denied : permitted (lab_network ∷ []) (v4 0xC6336407) ≡ false
unfolding permitted
stranger_denied = refl

abbrev idle : Server
idle = started (lab_network ∷ []) 1

receive_overload_example :
    ((0 < 1)
      × ((receive tcp (v4 0xC0000207) true idle).active
          ≡ (record { transport = tcp; client = v4 0xC0000207 }) ∷ [])
      × ((receive tcp (v4 0xC0000207) true idle).log ≡ []))
    ⊎ ((◌≡◌ {A = ℕ} 0 1)
        × ((receive tcp (v4 0xC0000207) true idle).active ≡ [])
        × ((receive tcp (v4 0xC0000207) true idle).shut ≡ 1)
        × ((receive tcp (v4 0xC0000207) true idle).log
            ≡ log_event (codes "rejected") (codes "tcp") normal (codes "overload") ∷ []))
receive_overload_example = receive_overload 1 idle tcp (v4 0xC0000207) refl lab_client_permitted
