-- ===== src/Proxy/Frame.antt =====
-- DNS over TCP in fault_proxy/dns_fault_proxy.py: `recv_exact`, `recv_frame`, `_write_parts` and
-- `send_frame`.
pub mod Recv
pub mod Whole
pub mod Send
pub mod Unread
use dns_server_lan_fixtures.Prelude.{
  ℕ, zero, suc, ◌+◌, ◌-◌, ◌/◌, min, ◌&&◌, List, [], ◌∷◌, ◌++◌, Bytes, codes, u16, u16_at, length,
  take, drop, ltb, leb, ◌==◌, if◌then◌else◌,
}
use dns_server_lan_fixtures.Outcome.{
  Outcome, returned, raised, format, eof, zero_length_frame, payload_length,
}
use dns_server_lan_fixtures.Proxy.Scenario.{
  Scenario, normal, force_tcp, split_prefix, split_body, bytewise, delayed, close_before_response,
  close_after_prefix, close_mid_body, length_mismatch, stall, duplicate_response, trailing_bytes,
}
use dns_server_lan_fixtures.Proxy.Socket.{Arrival, Socket, Io, recv_from, sendall, sleep}

-- The body of the loop of `recv_exact`, after a read.
abbrev pub after_recv :
    (Bytes → List Arrival → Outcome Bytes × List Arrival)
    → Bytes
    → Outcome Bytes × List Arrival
    → Outcome Bytes × List Arrival
after_recv next received (raised e, rest) = (raised e, rest)
after_recv next received (returned [], rest) = (raised eof, rest)
after_recv next received (returned (b ∷ bs), rest) = next (received ++ b ∷ bs) rest

-- The loop, with what was received. Each read takes a byte at least, so `size` rounds are enough.
unfoldable pub recv_loop : ℕ → ℕ → Bytes → List Arrival → Outcome Bytes × List Arrival
recv_loop zero size received arrivals = (returned received, arrivals)
recv_loop (suc n) size received arrivals =
    if ltb (length received) size
    then after_recv (recv_loop n size) received (recv_from (size - length received) arrivals)
    else (returned received, arrivals)

unfoldable pub recv_exact : ℕ → List Arrival → Outcome Bytes × List Arrival
unfolding recv_loop recv_from
recv_exact size = recv_loop size size []

recv_body : Outcome Bytes × List Arrival → Outcome Bytes × List Arrival
recv_body (raised e, rest) = (raised e, rest)
recv_body (returned prefix, rest) =
    if u16_at prefix 0 == 0
    then (raised (format zero_length_frame), rest)
    else recv_exact (u16_at prefix 0) rest

unfoldable pub recv_frame : List Arrival → Outcome Bytes × List Arrival
unfolding recv_body
recv_frame arrivals = recv_body (recv_exact 2 arrivals)

-- `if part: sock.sendall(part)`
send_part : Bytes → Io (Unit {0})
send_part [] s = (returned tt, s)
send_part (b ∷ bs) s = sendall (b ∷ bs) s

-- `if delay_seconds and index + 1 < len(parts): time.sleep(delay_seconds)`
pause : ℕ → List Bytes → Socket → Socket
pause delay [] s = s
pause delay (_ ∷ _) s = if delay == 0 then s else sleep delay s

-- An exception of `sendall` ends the loop.
abbrev pub after_part : Io (Unit {0}) → Outcome (Unit {0}) × Socket → Outcome (Unit {0}) × Socket
after_part next (raised e, s) = (raised e, s)
after_part next (returned _, s) = next s

unfoldable pub write_parts : List Bytes → ℕ → Io (Unit {0})
unfolding send_part pause
write_parts [] delay s = (returned tt, s)
write_parts (part ∷ rest) delay s =
    after_part (λ s'. write_parts rest delay (pause delay rest s')) (send_part part s)

abbrev pub max_dns_payload : ℕ
max_dns_payload = 65535

abbrev pub trailing : Bytes
trailing = codes "DNSLAB-TRAILING"

-- [data[i : i + size] for i in range(0, len(data), size)], on fuel.
chunks_fuel : ℕ → ℕ → Bytes → List Bytes
chunks_fuel zero size bytes = []
chunks_fuel (suc n) size [] = []
chunks_fuel (suc n) size (b ∷ bs) = take size (b ∷ bs) ∷ chunks_fuel n size (drop size (b ∷ bs))

unfoldable pub chunks : ℕ → Bytes → List Bytes
unfolding chunks_fuel
chunks size bytes = chunks_fuel (length bytes) size bytes

-- payload[: len(payload) // 2]
abbrev pub half_of : Bytes → Bytes
half_of payload = take (length payload / 2) payload

-- The parts that `send_frame` writes for a scenario; none where it returns at once.
unfoldable pub frame_parts : Scenario → Bytes → List Bytes
frame_parts normal payload = (u16 (length payload) ++ payload) ∷ []
frame_parts force_tcp payload = (u16 (length payload) ++ payload) ∷ []
frame_parts split_prefix payload =
    take 1 (u16 (length payload)) ∷ drop 1 (u16 (length payload)) ∷ payload ∷ []
frame_parts split_body payload = u16 (length payload) ∷ chunks 64 payload
frame_parts bytewise payload = chunks 1 (u16 (length payload) ++ payload)
frame_parts delayed payload = u16 (length payload) ∷ chunks 256 payload
frame_parts close_before_response payload = []
frame_parts stall payload = []
frame_parts close_after_prefix payload = u16 (length payload) ∷ []
frame_parts close_mid_body payload = u16 (length payload) ∷ half_of payload ∷ []
frame_parts length_mismatch payload =
    u16 (min max_dns_payload (length payload + 16)) ∷ half_of payload ∷ []
frame_parts duplicate_response payload =
    (u16 (length payload) ++ payload) ∷ (u16 (length payload) ++ payload) ∷ []
frame_parts trailing_bytes payload = (u16 (length payload) ++ payload) ∷ trailing ∷ []

unfoldable pub send_frame : Bytes → Scenario → ℕ → Io (Unit {0})
send_frame payload scenario delay s =
    if leb 1 (length payload) && leb (length payload) max_dns_payload
    then write_parts (frame_parts scenario payload) delay s
    else (raised (format payload_length), s)
