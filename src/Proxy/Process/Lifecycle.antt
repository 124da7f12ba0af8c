-- ===== src/Proxy/Process/Lifecycle.antt =====
-- The lifecycle of the two servers in `run` of fault_proxy/dns_fault_proxy.py.
use dns_server_lan_fixtures.Prelude.{
  ℕ, ◌≡◌, refl, ◌∙◌, ◌⊎◌, inl, inr, Bool, true, false, ◌&&◌, Option, none, some, List, [], ◌∷◌,
  ◌++◌, Text, if◌then◌else◌,
}
use dns_server_lan_fixtures.Outcome.{Error, Outcome, returned, raised, network, uncaught}
use dns_server_lan_fixtures.Proxy.Config.{Floats, Config, has_colon}
use dns_server_lan_fixtures.Proxy.Sessions.{Transport, tcp, udp}
use dns_server_lan_fixtures.Proxy.Process.{
  Effect, opened, both_families, handles_signals, serves, shut_down, closed, joined, System, Run,
  done, attempt, followed_by, make_server, run,
}

-- What has become of a server and its thread.
pub data Phase : Type 0 where
  absent bound running stopping gone ended : Phase

abbrev pub same_transport : Transport → Transport → Bool
same_transport tcp tcp = true
same_transport udp udp = true
same_transport _ _ = false

-- `none` is a call out of order: `socketserver` waits for ever in the `shutdown` of a server that
-- does not run, and a socket must not be closed under a running server.
abbrev advance : Phase → Effect → Option Phase
advance absent (opened _ _ _ _) = some bound
advance bound (both_families _) = some bound
advance bound (serves _ _) = some running
advance running (shut_down _) = some stopping
advance stopping (closed _) = some gone
advance gone (joined _) = some ended
advance _ _ = none

-- The server that a call is about.
abbrev server_of : Effect → Option Transport
server_of (opened t _ _ _) = some t
server_of (both_families t) = some t
server_of (serves t _) = some t
server_of (shut_down t) = some t
server_of (closed t) = some t
server_of (joined t) = some t
server_of _ = none

abbrev concerns : Transport → Option Transport → Bool
concerns t none = false
concerns t (some u) = same_transport t u

unfoldable pub phase_after : Transport → Option Phase → List Effect → Option Phase
phase_after t none effects = none
phase_after t (some p) [] = some p
phase_after t (some p) (e ∷ es) =
    phase_after t (if concerns t (server_of e) then advance p e else some p) es

-- Before the wait, nothing is shut down.
abbrev pub IsEarly : Option Phase → Type 0
IsEarly p = (p ≡ some absent) ⊎ ((p ≡ some bound) ⊎ (p ≡ some running))

-- A part of `run` takes a server from one phase to another, or raises in an early one.
abbrev pub Goes : Transport → Phase → Phase → Run → Type 0
unfolding phase_after
Goes t p q (returned _, effects) = phase_after t (some p) effects ≡ some q
Goes t p q (raised _, effects) = IsEarly (phase_after t (some p) effects)

phase_after-append :
    (t : Transport) (p : Option Phase) (xs ys : List Effect)
    → phase_after t p (xs ++ ys) ≡ phase_after t (phase_after t p xs) ys
unfolding phase_after
phase_after-append t none xs ys = refl
phase_after-append t (some p) [] ys = refl
phase_after-append t (some p) (e ∷ es) ys =
    phase_after-append t (if concerns t (server_of e) then advance p e else some p) es ys

followed_by-Goes :
    (t : Transport) (p q r : Phase) (first rest : Run)
    → Goes t p q first
    → Goes t q r rest
    → Goes t p r (followed_by first rest)
unfolding phase_after
followed_by-Goes t p q r (raised e, effects) rest early goes = early
followed_by-Goes t p q r (returned _, effects) (returned _, more) first goes =
    phase_after-append t (some p) effects more ∙ rw first goes
followed_by-Goes t p q r (returned _, effects) (raised e, more) first early =
    rw (phase_after-append t (some p) effects more, first) early

attempt-Goes :
    (t : Transport) (p q : Phase) (allowed : Bool) (refusal : Error) (e : Effect)
    → IsEarly (some p)
    → phase_after t (some p) (e ∷ []) ≡ some q
    → Goes t p q (attempt allowed refusal e)
unfolding phase_after
attempt-Goes t p q true refusal e early goes = goes
attempt-Goes t p q false refusal e early goes = early

option-Goes :
    (t : Transport) (q : Phase) (allowed : Bool) (e : Effect)
    → phase_after t (some q) (e ∷ []) ≡ some q
    → Goes t q q (done (if allowed then e ∷ [] else []))
unfolding phase_after
option-Goes t q true e goes = goes
option-Goes t q false e goes = refl

module _ {fl : Floats} (system : System) (config : Config fl) where
  make_server-Goes :
      (t u : Transport) (p q : Phase)
      → IsEarly (some p)
      → ((ipv6 : Bool) (host : Text) (port : ℕ)
          → phase_after t (some p) (opened u ipv6 host port ∷ []) ≡ some q)
      → phase_after t (some q) (both_families u ∷ []) ≡ some q
      → Goes t p q (make_server system config u)
  unfolding make_server phase_after
  make_server-Goes t u p q early opens keeps =
      let ipv6 = has_colon config.listen_host in
      followed_by-Goes t p q q _ _
        (attempt-Goes t p q (system.binds u) network _ early
          (opens ipv6 config.listen_host config.listen_port))
        (option-Goes t q (ipv6 && system.sets_option u) (both_families u) keeps)

  run-Goes : (t : Transport) → Goes t absent ended (run system config)
  unfolding run phase_after
  run-Goes tcp =
      followed_by-Goes tcp absent bound ended _ _
        (make_server-Goes tcp tcp absent bound (inl refl) (λ ipv6 host port. refl) refl)
        (followed_by-Goes tcp bound bound ended _ _
          (make_server-Goes tcp udp bound bound (inr (inl refl)) (λ ipv6 host port. refl) refl)
          (followed_by-Goes tcp bound bound ended (done (handles_signals ∷ [])) _ refl (
            followed_by-Goes tcp bound running ended _ _
              (attempt-Goes tcp bound running (system.starts tcp) uncaught _ (inr (inl refl)) refl)
              (followed_by-Goes tcp running running ended _ _
                (attempt-Goes tcp running running (system.starts udp) uncaught _ (inr (inr refl))
                  refl)
                refl))))
  run-Goes udp =
      followed_by-Goes udp absent absent ended _ _
        (make_server-Goes udp tcp absent absent (inl refl) (λ ipv6 host port. refl) refl)
        (followed_by-Goes udp absent bound ended _ _
          (make_server-Goes udp udp absent bound (inl refl) (λ ipv6 host port. refl) refl)
          (followed_by-Goes udp bound bound ended (done (handles_signals ∷ [])) _ refl (
            followed_by-Goes udp bound bound ended _ _
              (attempt-Goes udp bound bound (system.starts tcp) uncaught _ (inr (inl refl)) refl)
              (followed_by-Goes udp bound running ended _ _
                (attempt-Goes udp bound running (system.starts udp) uncaught _ (inr (inl refl))
                  refl)
                refl))))

-- Where `run` ends.
abbrev pub Settled : Outcome (Unit {0}) → Option Phase → Type 0
Settled (returned _) p = p ≡ some ended
Settled (raised _) p = IsEarly p

settle :
    (t : Transport) (r : Run)
    → Goes t absent ended r
    → Settled (r.0) (phase_after t (some absent) (r.1))
unfolding phase_after
settle t (returned _, effects) goes = goes
settle t (raised _, effects) goes = goes

-- Whatever the system refuses, the calls that `run` makes of each of the two servers are in order: a
-- server is opened before its thread starts, it is shut down only while its thread runs, and it is
-- closed, and its thread joined, only after that. If `run` returns, both servers have gone all this
-- way, and if it raises, neither has been shut down.
pub run_lifecycle :
    {fl : Floats} (system : System) (config : Config fl) (t : Transport)
    → Settled ((run system config).0) (phase_after t (some absent) ((run system config).1))
unfolding phase_after run
run_lifecycle system config t = settle t (run system config) (run-Goes system config t)
