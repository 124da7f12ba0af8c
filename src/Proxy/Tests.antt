-- ===== src/Proxy/Tests.antt =====
-- The theorems about fault_proxy/dns_fault_proxy.py at concrete inputs, and runs of its functions.
use dns_server_lan_fixtures.Prelude.{
  ℕ, dots, ◌<◌, ◌≡◌, refl, ◌↔◌, some, List, [], ◌∷◌, ◌++◌, arith, Bytes, Text, codes, lower,
  rstrip_dots, split_dots, join_dots, u16, length, All-get_or,
}
use dns_server_lan_fixtures.Outcome.{
  Outcome, returned, raised, format, timed_out, network, uncaught, pointer_loop,
}
use dns_server_lan_fixtures.Prelude.Int.{pos}
use dns_server_lan_fixtures.Proxy.Scenario.{bytewise, stall, trailing_bytes, scenario_for, value}
use dns_server_lan_fixtures.Proxy.Scenario.Dispatch.{scenario_text, scenario_for_iff}
use dns_server_lan_fixtures.Proxy.Query.{
  is_ascii, encode_labels, encode_label, build_query, query_labels, query_header,
}
use dns_server_lan_fixtures.Proxy.Query.Encoding.{wire_name}
use dns_server_lan_fixtures.Proxy.Name.{pointer_of, decode_name, display}
use dns_server_lan_fixtures.Proxy.Name.Wire.{NameAt, root, label, pointer, IsBytes}
use dns_server_lan_fixtures.Proxy.Name.Sound.{decode_name_sound}
use dns_server_lan_fixtures.Proxy.Name.Complete.{decode_name_complete}
use dns_server_lan_fixtures.Proxy.Question.{question_end}
use dns_server_lan_fixtures.Proxy.Question.RoundTrip.{
  asked_name, fault_name, question_end-build_query,
}
use dns_server_lan_fixtures.Proxy.Socket.{Arrival, chunk, fails, Socket, available}
use dns_server_lan_fixtures.Proxy.Frame.{recv_frame, send_frame}
use dns_server_lan_fixtures.Proxy.Frame.Whole.{frame_of, recv_frame-frame_of}
use dns_server_lan_fixtures.Proxy.Frame.Send.{Writes, stream_of, send_frame-Writes}

-- "ab." at offset 0 through a pointer to offset 3.
abbrev compressed : Bytes
compressed = 0xC0 ∷ 3 ∷ 7 ∷ 2 ∷ b'a' ∷ b'B' ∷ 0 ∷ []

compressed-IsBytes : IsBytes compressed
compressed-IsBytes i = All-get_or (λ b. b < 256) compressed i 0 (omega arith) (omega arith)

abbrev compressed_name : NameAt compressed 0 (codes "aB" ∷ []) 2
compressed_name =
    pointer {j = 3} (omega arith) (omega arith) refl (omega arith)
      (label {j = 6} (omega arith) (omega arith) refl (omega arith) refl
        (root (omega arith) refl refl))
      refl

decoded_compressed : decode_name compressed 0 ≡ returned (codes "ab", 2)
unfolding decode_name pointer_of join_dots
decoded_compressed = refl

-- A pointer to itself is refused.
pointer_to_itself : decode_name (0xC0 ∷ 0 ∷ []) 0 ≡ raised (format pointer_loop)
unfolding decode_name pointer_of join_dots
pointer_to_itself = refl

decode_name_sound_example :
    (ls : List Bytes) × NameAt compressed 0 ls 2 × (codes "ab" ≡ lower (display ls))
decode_name_sound_example = decode_name_sound compressed 0 compressed-IsBytes decoded_compressed

decode_name_complete_example :
    decode_name compressed 0 ≡ returned (lower (display (codes "aB" ∷ [])), 2)
unfolding is_ascii
decode_name_complete_example =
    decode_name_complete compressed 0 compressed_name compressed-IsBytes (omega arith) (refl, tt)

scenario_for_iff_example :
    (scenario_for (codes "STALL.transport.example.test.") ≡ stall)
    ↔ ((n : ℕ) × (lower (codes "STALL.transport.example.test.") ≡ scenario_text stall ++ dots n))
scenario_for_iff_example =
    scenario_for_iff (codes "STALL.transport.example.test.") stall (λ e. grind arith)

-- A query for a scenario's name.
abbrev asked : Text
asked = fault_name bytewise

abbrev asked_wire : Bytes
asked_wire =
    query_header 0x6313 ++ (wire_name (query_labels (rstrip_dots asked)) ++ (u16 1 ++ u16 1))

asked_built : build_query asked (pos 1) (pos 0x6313) ≡ returned asked_wire
unfolding build_query value query_labels split_dots rstrip_dots encode_labels encode_label is_ascii
asked_built = refl

question_end-build_query_example :
    question_end asked_wire ≡ returned (asked_name asked, length asked_wire)
question_end-build_query_example = question_end-build_query asked (pos 1) (pos 0x6313) asked_built

-- dnspython is not reached at this input.
abbrev no_library : Bytes → Outcome Bytes
no_library _ = raised uncaught

-- A frame of three bytes in three chunks, with the start of another one behind it.
abbrev in_chunks : List Arrival
in_chunks = chunk 0 [] ∷ chunk 3 (b'o' ∷ b'n' ∷ []) ∷ chunk b'e' (0 ∷ []) ∷ fails timed_out ∷ []

recv_frame-frame_of_example : (recv_frame in_chunks).0 ≡ frame_of (available in_chunks) timed_out
recv_frame-frame_of_example = recv_frame-frame_of in_chunks

-- A connection that breaks behind ten bytes.
abbrev breaking : Socket
breaking = record { arrivals = []; trace = []; breaks = some (10, network) }

send_frame-Writes_example :
    Writes
      (stream_of trailing_bytes (codes "one"))
      breaking
      (send_frame (codes "one") trailing_bytes 50 breaking)
send_frame-Writes_example =
    send_frame-Writes (codes "one") trailing_bytes 50 breaking (omega arith) (omega arith)
