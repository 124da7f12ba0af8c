-- ===== src/Proxy/Sessions/Bounds.antt =====
-- The semaphore bounds the sessions, and no permit is lost or released twice.
use dns_server_lan_fixtures.Prelude.{
  ℕ, zero, suc, ◌+◌, ◌≤◌, ◌<◌, ◌≡◌, refl, ◌⊎◌, inl, inr, Bool, true, false, List, [], ◌∷◌, ◌++◌,
  arith, codes, length, ◌==◌, Bool-cases,
}
use dns_server_lan_fixtures.Proxy.Scenario.{normal}
use dns_server_lan_fixtures.Proxy.Log.{log_event}
use dns_server_lan_fixtures.Proxy.Access.{Network, Address, permitted}
use dns_server_lan_fixtures.Proxy.Sessions.{
  Transport, transport_name, Session, Server, receive, remove_nth, finish, Event, request, ended,
  on_event, run_events, started,
}

-- The permits that are left and the sessions that run make up the maximum.
abbrev pub IsBalanced : ℕ → Server → Type 0
IsBalanced max_sessions s = s.permits + length s.active ≡ max_sessions

length-remove_nth :
    (i : ℕ) (xs : List Session) → i < length xs → length (remove_nth i xs) + 1 ≡ length xs
unfolding remove_nth
length-remove_nth i [] h = absurd (omega arith)
length-remove_nth zero (x ∷ xs) h = omega arith
length-remove_nth (suc i) (x ∷ xs) h = omega (arith, length-remove_nth i xs (omega arith))

on_event-IsBalanced :
    (m : ℕ) (e : Event) (s : Server) → IsBalanced m s → IsBalanced m (on_event e s)
unfolding on_event receive finish
on_event-IsBalanced m (request t client spawned) s h = ground arith
on_event-IsBalanced m (ended i) s h = ground (arith, length-remove_nth i s.active)

run_events-IsBalanced :
    (m : ℕ) (es : List Event) (s : Server) → IsBalanced m s → IsBalanced m (run_events es s)
unfolding run_events
run_events-IsBalanced m [] s h = h
run_events-IsBalanced m (e ∷ es) s h =
    run_events-IsBalanced m es (on_event e s) (on_event-IsBalanced m e s h)

-- Whatever requests arrive at the two servers, and whatever threads fail to start or end, the
-- permits and the running sessions always add up to the maximum: at most `max_sessions` run.
pub sessions_bounded :
    (allowed : List Network) (max_sessions : ℕ) (es : List Event)
    → (length (run_events es (started allowed max_sessions)).active ≤ max_sessions)
      × ((run_events es (started allowed max_sessions)).permits
            + length (run_events es (started allowed max_sessions)).active
          ≡ max_sessions)
sessions_bounded allowed max_sessions es =
    let h = run_events-IsBalanced max_sessions es (started allowed max_sessions) (omega arith) in
    (omega arith, h)

-- In such a state a permitted client whose thread starts gets a session exactly when fewer than
-- `max_sessions` run; else the request is shut down and logged as an overload.
pub receive_overload :
    (m : ℕ) (s : Server) (t : Transport) (client : Address)
    → IsBalanced m s
    → permitted s.allowed client ≡ true
    → ((length s.active < m)
        × ((receive t client true s).active
            ≡ (record { transport = t; client = client }) ∷ s.active)
        × ((receive t client true s).log ≡ s.log))
      ⊎ ((length s.active ≡ m)
          × ((receive t client true s).active ≡ s.active)
          × ((receive t client true s).shut ≡ s.shut + 1)
          × ((receive t client true s).log
              ≡ s.log
                ++ log_event (codes "rejected") (transport_name t) normal (codes "overload") ∷ []))
unfolding receive
receive_overload m s t client h p = elim (Bool-cases (s.permits == 0)) [
  | inl full ↦ inr (rw (p, full) (ground arith, refl, refl, refl))
  | inr free ↦ inl (rw (p, free) (ground arith, refl, refl))
]

-- A client outside the allowlist gets no session and takes no permit.
pub receive_denied :
    (s : Server) (t : Transport) (client : Address) (spawned : Bool)
    → permitted s.allowed client ≡ false
    → ((receive t client spawned s).active ≡ s.active)
      × ((receive t client spawned s).permits ≡ s.permits)
      × ((receive t client spawned s).log
          ≡ s.log ++ log_event (codes "rejected") (transport_name t) normal (codes "access") ∷ [])
unfolding receive
receive_denied s t client spawned h = rw h (refl, refl, refl)
