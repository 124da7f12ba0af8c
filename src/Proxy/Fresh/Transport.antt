-- ===== src/Proxy/Fresh/Transport.antt =====
-- fault_proxy/fresh_transport.py over a socket. `answer` is `answer_fresh` with `tcp=True`.
pub mod Stream
pub mod Promises
pub mod Faults
pub mod Batch
pub mod Whole
pub mod Fits
use dns_server_lan_fixtures.Proxy.Calls.{
  after_call, ◌>>=◌, ◌>>◌, give, pure_call, reading, sleeping,
}
use dns_server_lan_fixtures.Prelude.{
  ℕ, zero, suc, ◌+◌, ◌-◌, ◌*◌, ◌/◌, ◌%◌, ◌^◌, ◌≤◌, ◌<◌, min, max, bit_and, bit_or, ◌≡◌, refl, sym,
  ap, ◌∙◌, ◌≡⟨◌⟩◌, ◌∎, ◌≢◌, ◌↔◌, ◌⊎◌, inl, inr, Bool, true, false, not, ◌&&◌, ◌||◌, Option, none,
  some, List, [], ◌∷◌, ◌++◌, map, append-nil, append_assoc, flatten, arith, Bytes, Text, codes,
  to_lower, lower, lower_idem, eq_bytes, eq_bytes_iff, mem_bytes, rstrip_dots, split_dots,
  join_dots, join_dots-split_dots, split_dots-cons, u16, u16_at, u16_parts, length, get_or, take,
  drop, slice, All, length-append, take-append-drop, length-take, length-drop, take_ge, drop_ge,
  take-append, drop-append, take-append_of_length, drop-append_of_length, take-append_left,
  drop-append_left, drop-drop, get_or-append, get_or-drop, length-map, get_or-append_head,
  get_or-append_left, All-append, All-get_or, List-cases, slice-append, take-append_right,
  drop-append_right, ltb, leb, ◌==◌, if◌then◌else◌, ltb→lt, lt→ltb, le→ltb, leb→le, le→leb, lt→leb,
  ==_iff, ==_refl, Bool-cases, Option-cases,
}
use dns_server_lan_fixtures.Outcome.{Outcome, returned, raised, eof, uncaught}
use dns_server_lan_fixtures.Proxy.Socket.{Socket, Io, Arrival, sendall, sleep}
use dns_server_lan_fixtures.Proxy.Frame.{recv_exact, chunks}
use dns_server_lan_fixtures.Proxy.Forward.{pack_u16}
use dns_server_lan_fixtures.Proxy.Fresh.Dns.{Question, Message, Dnspython}
use dns_server_lan_fixtures.Proxy.Fresh.Name.{reverse_onto, Key, fresh_key}

-- _frame(payload)
unfoldable pub frame : Bytes → Outcome Bytes
frame payload =
    if leb (length payload) 0xFFFF
    then returned (u16 (length payload) ++ payload)
    else raised uncaught

-- `_read` is the loop of `recv_exact`, with another message.
abbrev pub read : ℕ → List Arrival → Outcome Bytes × List Arrival
read = recv_exact

unfoldable pub next_body : Outcome Bytes × List Arrival → Outcome Bytes × List Arrival
next_body (raised e, rest) = (raised e, rest)
next_body (returned prefix, rest) =
    if ltb (u16_at prefix 0) 12 then (raised eof, rest) else read (u16_at prefix 0) rest

-- _next(sock)
unfoldable pub next : List Arrival → Outcome Bytes × List Arrival
unfolding next_body recv_exact
next arrivals = next_body (read 2 arrivals)

-- len(message.question) == 1 and six labels, rdclass IN and opcode QUERY
is_plain : Message → Bool
is_plain message = elim message.questions [
  | [] ↦ false
  | q ∷ others ↦
      length others == 0 && length q.labels == 6 && q.rdclass == 1 && message.flags.opcode == 0
]

abbrev scenario_of_message : Option Message → Text
scenario_of_message none = codes "ordinary"
scenario_of_message (some message) = elim (fresh_key message) [
  | none ↦ codes "ordinary"
  | some (key, _) ↦ if is_plain message then key else codes "ordinary"
]

-- _scenario(query)
unfoldable pub scenario : Dnspython → Bytes → Text
unfolding is_plain fresh_key
scenario dns query = scenario_of_message (dns.message_from_wire query)

-- (int.from_bytes(changed[:2], "big") + 1) & 65535, for a reply of two bytes at least
unfoldable pub change_id : Bytes → Bytes
change_id reply = u16 ((u16_at reply 0 + 1) % 2 ^ 16) ++ drop 2 reply

-- `if len(changed) > 13: changed[13] = ord("z")`
unfoldable pub change_question : Bytes → Bytes
change_question reply =
    if ltb 13 (length reply) then take 13 reply ++ b'z' ∷ drop 14 reply else reply

-- The frame for a key, behind the tests for "mismatch-id" and "mismatch-question".
unfoldable pub reply_frame : Text → Bytes → Outcome Bytes
unfolding frame change_id change_question eq_bytes
reply_frame key reply =
    if eq_bytes key (codes "mismatch-id")
    then frame (change_id reply)
    else if eq_bytes key (codes "mismatch-question")
    then frame (change_question reply)
    else frame reply

unfoldable pub singles : Bytes → List Bytes
singles [] = []
singles (b ∷ bs) = (b ∷ []) ∷ singles bs

-- The parts of a frame for a key.
unfoldable pub reply_parts : Text → Bytes → List Bytes
unfolding singles chunks eq_bytes
reply_parts key bytes =
    if eq_bytes key (codes "split-prefix")
    then slice bytes 0 1 ∷ slice bytes 1 2 ∷ drop 2 bytes ∷ []
    else if eq_bytes key (codes "split-body")
    then take 2 bytes ∷ chunks 16 (drop 2 bytes)
    else if eq_bytes key (codes "bytewise")
    then singles bytes
    else bytes ∷ []

-- `if index + 1 < len(parts): time.sleep(min(delay, 0.01))`
abbrev pub pause : ℕ → List Bytes → Socket → Socket
pause delay [] s = s
pause delay (_ ∷ _) s = sleep (min delay 10000) s

unfoldable pub send_parts : List Bytes → ℕ → Io (Unit {0})
unfolding sendall
send_parts [] delay s = (returned tt, s)
send_parts (part ∷ rest) delay s =
    after_call (λ _ s'. send_parts rest delay (pause delay rest s')) (sendall part s)

abbrev is : Text → Text → Bool
is key name = eq_bytes key name

abbrev frame_answer : Outcome Bytes → Outcome Bytes
frame_answer (raised e) = raised e
frame_answer (returned reply) = frame reply

abbrev frame_and : Outcome Bytes → Outcome (List Bytes) → Outcome (List Bytes)
frame_and (raised e) rest = raised e
frame_and (returned f) (raised e) = raised e
frame_and (returned f) (returned fs) = returned (f ∷ fs)

-- `frames = [_frame(answer_fresh(item, tcp=True)) for item in queries]`
unfoldable pub frames_of : (Bytes → Outcome Bytes) → List Bytes → Outcome (List Bytes)
unfolding frame
frames_of answer [] = returned []
frames_of answer (query ∷ queries) =
    frame_and (frame_answer (answer query)) (frames_of answer queries)

-- The branch of the keys "reordered" and "coalesced".
unfoldable pub serve_batch : (Bytes → Outcome Bytes) → Text → Bytes → Io Bool
unfolding frames_of next sendall flatten eq_bytes
serve_batch answer key query = do
  second ← reading next
  third ← reading next
  frames ← pure_call (frames_of answer (query ∷ second ∷ third ∷ []))
  sendall (flatten (if is key (codes "reordered") then reverse_onto frames [] else frames))
  give false

-- Behind the loop over the parts.
unfoldable pub after_reply : Text → Bytes → Io Bool
unfolding sendall eq_bytes
after_reply key bytes =
    if is key (codes "duplicate")
    then (do sendall bytes; give false)
    else if is key (codes "trailing")
    then (do sendall (0 ∷ 0x10 ∷ codes "garbage"); give false)
    else give (not (is key (codes "mismatch-id") || is key (codes "mismatch-question")))

-- From the tests of "mismatch-id" on.
unfoldable pub serve_reply : Text → Bytes → ℕ → Io Bool
unfolding sendall reply_frame reply_parts send_parts after_reply eq_bytes
serve_reply key reply delay = pure_call (reply_frame key reply) >>= λ bytes.
    if is key (codes "close-prefix")
    then (do sendall (take 2 bytes); give false)
    else if is key (codes "close-body")
    then (do sendall (take (2 + length reply / 2) bytes); give false)
    else if is key (codes "length-mismatch")
    then (do
      prefix ← pure_call (pack_u16 (length reply + 16))
      sendall (prefix ++ reply)
      give false)
    else (do send_parts (reply_parts key bytes) delay; after_reply key bytes)

unfoldable pub serve_key : (Bytes → Outcome Bytes) → Text → Bytes → Bytes → ℕ → ℕ → Io Bool
unfolding serve_batch serve_reply eq_bytes
serve_key answer key query reply delay timeout =
    if is key (codes "close-before")
    then give false
    else if is key (codes "stall")
    then (do sleeping (min 4000000 timeout); give false)
    else if is key (codes "reordered") || is key (codes "coalesced")
    then serve_batch answer key query
    else serve_reply key reply delay

-- `if not reply: return False`, and the frame that is made first.
unfoldable pub serve_answer : (Bytes → Outcome Bytes) → Text → Bytes → ℕ → ℕ → Bytes → Io Bool
unfolding frame serve_key
serve_answer answer key query delay timeout [] = give false
serve_answer answer key query delay timeout (b ∷ bs) = do
  whole ← pure_call (frame (b ∷ bs))
  serve_key answer key query (b ∷ bs) delay timeout

-- The delay and the timeout are in microseconds.
unfoldable pub serve_fresh_tcp : Dnspython → (Bytes → Outcome Bytes) → Bytes → ℕ → ℕ → Io Bool
unfolding scenario serve_answer
serve_fresh_tcp dns answer query delay timeout = do
  reply ← pure_call (answer query)
  serve_answer answer (scenario dns query) query delay timeout reply
