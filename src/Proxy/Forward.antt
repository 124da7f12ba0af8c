-- ===== src/Proxy/Forward.antt =====
-- `_validate_upstream_response`, `forward_tcp`, `forward_udp`, `validate_health_response` and
-- `run_healthcheck` of fault_proxy/dns_fault_proxy.py.
pub mod Upstream
pub mod Health
mod Tests
use dns_server_lan_fixtures.Prelude.{
  ℕ, zero, suc, ◌+◌, ◌-◌, ◌*◌, ◌/◌, ◌%◌, ◌^◌, ◌≤◌, ◌<◌, min, max, bit_and, bit_or, ◌≡◌, refl, sym,
  ap, ◌∙◌, ◌≡⟨◌⟩◌, ◌∎, ◌≢◌, ◌↔◌, ◌⊎◌, inl, inr, Bool, true, false, not, ◌&&◌, ◌||◌, Option, none,
  some, List, [], ◌∷◌, ◌++◌, map, append-nil, append_assoc, flatten, arith, Bytes, Text, codes,
  to_lower, lower, lower_idem, eq_bytes, eq_bytes_iff, mem_bytes, rstrip_dots, split_dots,
  join_dots, join_dots-split_dots, split_dots-cons, u16, u16_at, u16_parts, length, get_or, take,
  drop, slice, All, length-append, take-append-drop, length-take, length-drop, take_ge, drop_ge,
  take-append, drop-append, take-append_of_length, drop-append_of_length, take-append_left,
  drop-append_left, drop-drop, get_or-append, get_or-drop, length-map, get_or-append_head,
  get_or-append_left, All-append, All-get_or, List-cases, slice-append, take-append_right,
  drop-append_right, ltb, leb, ◌==◌, if◌then◌else◌, ltb→lt, lt→ltb, le→ltb, leb→le, le→leb, lt→leb,
  ==_iff, ==_refl, Bool-cases, Option-cases,
}
use dns_server_lan_fixtures.Outcome.{
  FormatError, Error, Outcome, returned, raised, format, timed_out, eof, network, uncaught, ◌>>=◌,
  ◌>>◌, reject_if, bind-eq-returned, returned_injective, transaction_id_range, query_type_range,
  query_label_ascii, query_label_length, query_name_length, truncated_name, truncated_pointer,
  pointer_out_of_bounds, pointer_loop, label_length_bits, truncated_label, label_ascii,
  excessive_depth, header_truncated, question_count, truncated_question, zero_length_frame,
  payload_length, health_header, health_id, health_not_response, health_not_authoritative,
  upstream_header, upstream_id,
}
use dns_server_lan_fixtures.Prelude.Int.{pos}
use dns_server_lan_fixtures.Proxy.Query.{build_query}
use dns_server_lan_fixtures.Proxy.Socket.{Socket, Io, sendall}
use dns_server_lan_fixtures.Proxy.Frame.{recv_frame}

-- struct.pack("!H", n); the error of `struct` is caught nowhere.
abbrev pub pack_u16 : ℕ → Outcome Bytes
pack_u16 n = if leb n 0xFFFF then returned (u16 n) else raised uncaught

unfoldable pub validate_upstream_response : Bytes → Bytes → Outcome (Unit {0})
unfolding eq_bytes
validate_upstream_response query response = do
  reject_if (ltb (length response) 12) upstream_header
  reject_if (not (eq_bytes (take 2 response) (take 2 query))) upstream_id

-- `_validate_upstream_response(query, response)` and `return response`
unfoldable pub checked_response : Bytes → Outcome Bytes → Outcome Bytes
unfolding validate_upstream_response
checked_response query (raised e) = raised e
checked_response query (returned response) = do
  validate_upstream_response query response
  returned response

-- `recv_frame(upstream)`, where `sendall` returned.
abbrev response_of : Outcome (Unit {0}) × Socket → Outcome Bytes
response_of (raised e, s) = raised e
response_of (returned _, s) = (recv_frame s.arrivals).0

-- `connection` is what `socket.create_connection` makes: the connection, or its `OSError`.
unfoldable pub forward_tcp : Outcome Socket → Bytes → Outcome Bytes
unfolding checked_response recv_frame sendall
forward_tcp connection query = do
  upstream ← connection
  prefix ← pack_u16 (length query)
  checked_response query (response_of (sendall (prefix ++ query) upstream))

-- Whether `except OSError` catches it.
abbrev pub is_os_error : Error → Bool
is_os_error (format _) = false
is_os_error timed_out = true
is_os_error eof = false
is_os_error network = true
is_os_error uncaught = false

-- What the socket of an address does: its `OSError`, or the datagram that `recvfrom` meets.
abbrev pub Attempt : Type 0
Attempt = Outcome Bytes

-- recvfrom(size): the rest of a longer datagram is lost.
abbrev pub received_up_to : ℕ → Attempt → Outcome Bytes
received_up_to size (raised e) = raised e
received_up_to size (returned datagram) = returned (take size datagram)

-- `if last_error is not None: raise last_error`, and the raise behind it.
abbrev no_response : Option Error → Error
no_response none = network
no_response (some e) = e

-- Behind the body of the `try`: the return, the next address, or an exception that is not caught.
abbrev pub after_attempt : (Error → Outcome Bytes) → Outcome Bytes → Outcome Bytes
after_attempt next (returned response) = returned response
after_attempt next (raised e) = if is_os_error e then next e else raised e

-- The loop over the addresses, with the last error.
unfoldable pub udp_loop : List Attempt → Option Error → Bytes → Outcome Bytes
unfolding checked_response
udp_loop [] last query = raised (no_response last)
udp_loop (attempt ∷ rest) last query =
    after_attempt (λ e. udp_loop rest (some e) query)
      (checked_response query (received_up_to 65535 attempt))

-- `addresses` is what `getaddrinfo` finds, each with what its socket does.
unfoldable pub forward_udp : Outcome (List Attempt) → Bytes → Outcome Bytes
unfolding udp_loop
forward_udp addresses query = do attempts ← addresses; udp_loop attempts none query

unfoldable pub validate_health_response : Bytes → ℕ → Outcome (Unit {0})
validate_health_response response transaction_id = do
  reject_if (ltb (length response) 12) health_header
  reject_if (not (u16_at response 0 == transaction_id)) health_id
  reject_if (bit_and (u16_at response 2) 0x8000 == 0) health_not_response
  reject_if (bit_and (u16_at response 2) 0x0400 == 0) health_not_authoritative

-- `except (OSError, DNSFormatError): continue`
abbrev pub is_passed_over : Error → Bool
is_passed_over (format _) = true
is_passed_over timed_out = true
is_passed_over eof = false
is_passed_over network = true
is_passed_over uncaught = false

health_check : Outcome Bytes → Outcome (Unit {0})
unfolding validate_health_response
health_check (raised e) = raised e
health_check (returned response) = validate_health_response response 0x6313

abbrev after_check : Outcome (Unit {0}) → Outcome (Unit {0}) → Outcome (Unit {0})
after_check next (returned _) = returned tt
after_check next (raised e) = if is_passed_over e then next else raised e

-- The loop of `run_healthcheck`. `SystemExit`, behind the loop, is caught nowhere.
unfoldable pub health_loop : List Attempt → Outcome (Unit {0})
unfolding health_check
health_loop [] = raised uncaught
health_loop (attempt ∷ rest) =
    after_check (health_loop rest) (health_check (received_up_to 4096 attempt))

-- The query goes to each address; `addresses` is what `getaddrinfo` finds for it.
unfoldable pub run_healthcheck : (Bytes → Outcome (List Attempt)) → Outcome (Unit {0})
unfolding health_loop build_query
run_healthcheck addresses = do
  query ← build_query (codes "normal.transport.example.test") (pos 1) (pos 0x6313)
  attempts ← addresses query
  health_loop attempts
