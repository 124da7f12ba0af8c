-- ===== src/Proxy/Process/Tests.antt =====
-- The process at concrete inputs.
use dns_server_lan_fixtures.Prelude.{◌≡◌, refl, Bool, true, false, some, [], ◌∷◌, All}
use dns_server_lan_fixtures.Outcome.{returned, raised, network}
use dns_server_lan_fixtures.Proxy.Access.{v4}
use dns_server_lan_fixtures.Proxy.Config.Tests.{floats, configured, getenv, ip_network}
use dns_server_lan_fixtures.Proxy.Sessions.{request, ended, Transport, tcp, udp}
use dns_server_lan_fixtures.Proxy.Process.{System, run, main, make_server}
use dns_server_lan_fixtures.Proxy.Process.Lifecycle.{
  absent, bound, Settled, phase_after, run_lifecycle,
}
use dns_server_lan_fixtures.Proxy.Process.Limits.{Guarded, main-Guarded}

abbrev is_tcp : Transport → Bool
is_tcp tcp = true
is_tcp udp = false

-- A system that refuses the UDP socket, and one that refuses nothing.
abbrev no_udp : System
no_udp = record {
  binds = is_tcp;
  sets_option = λ _. true;
  starts = λ _. true;
  addresses = λ _ _ _. returned [];
}

abbrev willing : System
willing = record no_udp { binds = λ _. true }

no_udp_raises : (run no_udp configured).0 ≡ raised network
unfolding run make_server
no_udp_raises = refl

willing_returns : (run willing configured).0 ≡ returned tt
unfolding run make_server
willing_returns = refl

run_lifecycle_example :
    Settled ((run no_udp configured).0) (phase_after tcp (some absent) ((run no_udp configured).1))
run_lifecycle_example = run_lifecycle no_udp configured tcp

-- The TCP server is left as it was opened.
no_udp_bound : phase_after tcp (some absent) ((run no_udp configured).1) ≡ some bound
unfolding run make_server phase_after
no_udp_bound = refl

main-Guarded_example :
    All
      (Guarded (request tcp (v4 0x0A000001) true ∷ ended 0 ∷ []))
      ((main floats ip_network getenv willing false).1)
main-Guarded_example =
    main-Guarded floats ip_network getenv willing false
      (request tcp (v4 0x0A000001) true ∷ ended 0 ∷ [])
