-- ===== src/Proxy/Frame/Unread.antt =====
-- `send_frame` reads nothing.
use dns_server_lan_fixtures.Prelude.{
  ℕ, ◌≡◌, refl, ◌∙◌, inl, inr, ◌&&◌, Option, none, some, List, [], ◌∷◌, Bytes, length, leb, ◌==◌,
  Bool-cases,
}
use dns_server_lan_fixtures.Outcome.{Error, Outcome, returned, raised}
use dns_server_lan_fixtures.Proxy.Scenario.{Scenario}
use dns_server_lan_fixtures.Proxy.Socket.{Socket, sendall, send_within}
use dns_server_lan_fixtures.Proxy.Frame.{
  after_part, write_parts, send_frame, send_part, pause, frame_parts,
}

send_within-arrivals :
    (room : Option (ℕ × Error)) (part : Bytes) (s : Socket)
    → (send_within room part s).1.arrivals ≡ s.arrivals
unfolding send_within
send_within-arrivals none part s = refl
send_within-arrivals (some (room, e)) part s = elim (Bool-cases (leb (length part) room)) [
  | inl fits ↦ rw fits refl
  | inr long ↦ rw long refl
]

send_part-arrivals : (part : Bytes) (s : Socket) → (send_part part s).1.arrivals ≡ s.arrivals
unfolding send_part sendall
send_part-arrivals [] s = refl
send_part-arrivals (b ∷ bs) s = send_within-arrivals s.breaks (b ∷ bs) s

pause-arrivals :
    (delay : ℕ) (rest : List Bytes) (s : Socket) → (pause delay rest s).arrivals ≡ s.arrivals
unfolding pause
pause-arrivals delay [] s = refl
pause-arrivals delay (_ ∷ _) s = elim (Bool-cases (delay == 0)) [
  | inl z ↦ rw z refl
  | inr nz ↦ rw nz refl
]

after_part-arrivals :
    (next : Socket → Outcome (Unit {0}) × Socket) (s : Socket) (out : Outcome (Unit {0}) × Socket)
    → (out.1).arrivals ≡ s.arrivals
    → ((s' : Socket) → (next s').1.arrivals ≡ s'.arrivals)
    → (after_part next out).1.arrivals ≡ s.arrivals
after_part-arrivals next s (raised e, s') h k = h
after_part-arrivals next s (returned _, s') h k = k s' ∙ h

write_parts-arrivals :
    (parts : List Bytes) (delay : ℕ) (s : Socket)
    → (write_parts parts delay s).1.arrivals ≡ s.arrivals
unfolding write_parts
write_parts-arrivals [] delay s = refl
write_parts-arrivals (part ∷ rest) delay s =
    after_part-arrivals (λ s'. write_parts rest delay (pause delay rest s')) s (send_part part s)
      (send_part-arrivals part s)
      (λ s'. write_parts-arrivals rest delay (pause delay rest s') ∙ pause-arrivals delay rest s')

pub send_frame-arrivals :
    (payload : Bytes) (scenario : Scenario) (delay : ℕ) (s : Socket)
    → (send_frame payload scenario delay s).1.arrivals ≡ s.arrivals
unfolding send_frame
send_frame-arrivals payload scenario delay s =
    elim (Bool-cases (leb 1 (length payload) && leb (length payload) 65535)) [
      | inl fits ↦ rw fits (write_parts-arrivals (frame_parts scenario payload) delay s)
      | inr other ↦ rw other refl
    ]
