-- ===== src/Probe/Observe.antt =====
-- `observe` of scripts/tcp-probe.py, over a connection. Times are in milliseconds; `clock` is the
-- difference of the two readings of the clock.
pub mod Stream
pub mod Report
mod Tests
use dns_server_lan_fixtures.Prelude.{
  ℕ, zero, suc, ◌+◌, ◌-◌, ◌*◌, ◌/◌, ◌%◌, ◌^◌, ◌≤◌, ◌<◌, min, max, bit_and, bit_or, ◌≡◌, refl, sym,
  ap, ◌∙◌, ◌≡⟨◌⟩◌, ◌∎, ◌≢◌, ◌↔◌, ◌⊎◌, inl, inr, Bool, true, false, not, ◌&&◌, ◌||◌, Option, none,
  some, List, [], ◌∷◌, ◌++◌, map, append-nil, append_assoc, flatten, arith, Bytes, Text, codes,
  to_lower, lower, lower_idem, eq_bytes, eq_bytes_iff, mem_bytes, rstrip_dots, split_dots,
  join_dots, join_dots-split_dots, split_dots-cons, u16, u16_at, u16_parts, length, get_or, take,
  drop, slice, All, length-append, take-append-drop, length-take, length-drop, take_ge, drop_ge,
  take-append, drop-append, take-append_of_length, drop-append_of_length, take-append_left,
  drop-append_left, drop-drop, get_or-append, get_or-drop, length-map, get_or-append_head,
  get_or-append_left, All-append, All-get_or, List-cases, slice-append, take-append_right,
  drop-append_right, ltb, leb, ◌==◌, if◌then◌else◌, ltb→lt, lt→ltb, le→ltb, leb→le, le→leb, lt→leb,
  ==_iff, ==_refl, Bool-cases, Option-cases,
}
use dns_server_lan_fixtures.Outcome.{Outcome, returned, raised, Error, timed_out, uncaught}
use dns_server_lan_fixtures.Proxy.Socket.{Socket, Io, Arrival, recv_from, sendall, sleep, available}
use dns_server_lan_fixtures.Proxy.Forward.{pack_u16}
use dns_server_lan_fixtures.Proxy.Calls.{after_call, ◌>>=◌, ◌>>◌, give, pure_call}
use dns_server_lan_fixtures.Probe.Frames.{Parsed, RequestError, request_parts, parse_frames}
use dns_server_lan_fixtures.Probe.Verdict.{Observation}

-- The variables that the reading loop sets.
pub record Reading : Type 0 where
  pub chunks : List Bytes
  pub eof : Bool
  pub late : Bool

-- Behind a `recv`: the end, or the next round.
abbrev pub after_read :
    (Bytes → List Arrival → Outcome Reading × List Arrival)
    → List Bytes
    → Outcome Bytes × List Arrival
    → Outcome Reading × List Arrival
after_read next chunks (raised timed_out, rest) =
    (returned (record { chunks = chunks; eof = false; late = true }), rest)
after_read next chunks (raised e, rest) = (raised e, rest)
after_read next chunks (returned [], rest) =
    (returned (record { chunks = chunks; eof = true; late = false }), rest)
after_read next chunks (returned (b ∷ bs), rest) = next (b ∷ bs) rest

-- The `while` loop. Each round but the last reads a byte at least.
unfoldable pub read_loop : ℕ → List Bytes → List Arrival → Outcome Reading × List Arrival
unfolding recv_from
read_loop zero chunks arrivals = (raised uncaught, arrivals)
read_loop (suc n) chunks arrivals =
    after_read (λ chunk. read_loop n (chunks ++ chunk ∷ [])) chunks (recv_from 4096 arrivals)

-- `if request_delay and index + 1 < len(parts): time.sleep(request_delay)`
unfoldable pub pause : ℕ → List Bytes → Socket → Socket
pause delay [] s = s
pause delay (_ ∷ _) s = if delay == 0 then s else sleep delay s

unfoldable pub send_request : List Bytes → ℕ → Io (Unit {0})
unfolding sendall pause
send_request [] delay s = (returned tt, s)
send_request (part ∷ rest) delay s =
    after_call (λ _ s'. send_request rest delay (pause delay rest s')) (sendall part s)

abbrev observation : ℕ → Reading → Parsed → Observation
observation clock r parsed = record {
  frames = parsed.frames;
  read_sizes = map length r.chunks;
  eof = r.eof;
  timed_out = r.late;
  trailing = parsed.trailing;
  incomplete_expected = parsed.incomplete;
  elapsed_ms = clock;
}

abbrev parts_of : RequestError ⊎ List Bytes → Outcome (List Bytes)
parts_of (inl e) = raised uncaught
parts_of (inr parts) = returned parts

-- The loop with enough rounds for the bytes that arrive.
abbrev read_all : Io Reading
read_all s =
    let (out, rest) = read_loop (suc (length (available s.arrivals))) [] s.arrivals in
    (out, record s { arrivals = rest })

-- The reading loop, and what is made of it.
unfoldable pub watch : ℕ → Io Observation
unfolding read_loop parse_frames flatten
watch clock = do r ← read_all; give (observation clock r (parse_frames (flatten r.chunks)))

unfoldable pub observe : Bytes → Text → ℕ → ℕ → Io Observation
unfolding request_parts send_request watch
observe query pattern delay clock = do
  prefix ← pure_call (pack_u16 (length query))
  parts ← pure_call (parts_of (request_parts (prefix ++ query) pattern))
  send_request parts delay
  watch clock
