-- ===== src/Proxy/Frame/Send.antt =====
-- The bytes that `send_frame` writes, scenario by scenario.
use dns_server_lan_fixtures.Prelude.{
  append_assoc, refl, ◌<◌, ◌≤◌, ◌⊎◌, le→leb, flatten, ap, leb, ◌==◌, Bool-cases, inl, inr, Option,
  none, some, sym, ◌∙◌, take, drop, ℕ, zero, suc, ◌+◌, min, ◌≡◌, List, [], ◌∷◌, ◌++◌, append-nil,
  arith, Bytes, u16, length, take-append-drop, length-drop,
}
use mathlib.Core.Path.{ap₂}
use dns_server_lan_fixtures.Outcome.{format, payload_length, Error, raised, Outcome, returned}
use dns_server_lan_fixtures.Proxy.Scenario.{
  Scenario, split_body, bytewise, delayed, close_before_response, close_after_prefix,
  close_mid_body, length_mismatch, stall, duplicate_response, trailing_bytes,
}
use dns_server_lan_fixtures.Proxy.Socket.{
  slept, wrote, send_within, Socket, Effect, sendall, written, written-append,
}
use dns_server_lan_fixtures.Proxy.Frame.{
  after_part, write_parts, send_frame, send_part, pause, chunks_fuel, chunks, trailing,
  max_dns_payload, half_of, frame_parts,
}

abbrev pub framed : Bytes → Bytes
framed payload = u16 (length payload) ++ payload

-- The byte stream that each scenario promises to the client.
abbrev pub stream_of : Scenario → Bytes → Bytes
stream_of close_before_response payload = []
stream_of stall payload = []
stream_of close_after_prefix payload = u16 (length payload)
stream_of close_mid_body payload = u16 (length payload) ++ half_of payload
stream_of length_mismatch payload =
    u16 (min max_dns_payload (length payload + 16)) ++ half_of payload
stream_of duplicate_response payload = framed payload ++ framed payload
stream_of trailing_bytes payload = framed payload ++ trailing
stream_of _ payload = framed payload

chunks_fuel_lem :
    (n size : ℕ) (bytes : Bytes)
    → 0 < size
    → length bytes ≤ n
    → flatten (chunks_fuel n size bytes) ≡ bytes
unfolding chunks_fuel flatten
chunks_fuel_lem zero size [] h k = refl
chunks_fuel_lem zero size (b ∷ bs) h k = absurd (omega arith)
chunks_fuel_lem (suc n) size [] h k = refl
chunks_fuel_lem (suc n) size (b ∷ bs) h k =
    rw (chunks_fuel_lem n size (drop size (b ∷ bs)) h (omega (arith, length-drop size (b ∷ bs))))
      (take-append-drop size (b ∷ bs))

pub flatten-chunks : (size : ℕ) (bytes : Bytes) → 0 < size → flatten (chunks size bytes) ≡ bytes
unfolding chunks
flatten-chunks size bytes h = chunks_fuel_lem (length bytes) size bytes h (omega arith)

pub flatten-frame_parts :
    (s : Scenario) (payload : Bytes) → flatten (frame_parts s payload) ≡ stream_of s payload
unfolding frame_parts flatten
flatten-frame_parts close_before_response payload = refl
flatten-frame_parts stall payload = refl
flatten-frame_parts close_after_prefix payload = refl
flatten-frame_parts split_body payload =
    ap (λ body. u16 (length payload) ++ body) (flatten-chunks 64 payload (omega arith))
flatten-frame_parts bytewise payload = flatten-chunks 1 (framed payload) (omega arith)
flatten-frame_parts delayed payload =
    ap (λ body. u16 (length payload) ++ body) (flatten-chunks 256 payload (omega arith))
flatten-frame_parts _ payload = simp append-nil

-- What a sequence of writes did: it wrote a prefix of the bytes, and all of them if it returned.
pub record Writes (bytes : Bytes) (s : Socket) (out : Outcome (Unit {0}) × Socket) : Type 0 where
  pub sent : Bytes
  pub unsent : Bytes
  pub splits : bytes ≡ sent ++ unsent
  pub trace_grows : written (out.1).trace ≡ written s.trace ++ sent
  pub complete : out.0 ≡ returned tt → unsent ≡ []
  pub unbroken : s.breaks ≡ none → (out.0 ≡ returned tt) × ((out.1).breaks ≡ none)

written-wrote : (es : List Effect) (p : Bytes) → written (es ++ wrote p ∷ []) ≡ written es ++ p
written-wrote es p = written-append es (wrote p ∷ []) ∙ rw append-nil

send_within-Writes :
    (room : Option (ℕ × Error)) (part : Bytes) (s : Socket)
    → s.breaks ≡ room
    → Writes part s (send_within room part s)
unfolding send_within
send_within-Writes none part s e = record {
  sent = part;
  unsent = [];
  splits = sym (append-nil part);
  trace_grows = written-wrote s.trace part;
  complete = λ _. refl;
  unbroken = λ free. (refl, free);
}
send_within-Writes (some (room, x)) part s e = elim (Bool-cases (leb (length part) room)) [
  | inl fits ↦ rw fits (record {
    sent = part;
    unsent = [];
    splits = sym (append-nil part);
    trace_grows = written-wrote s.trace part;
    complete = λ _. refl;
    unbroken = λ free. (refl, absurd (cc (free, e)));
  })
  | inr long ↦ rw long (record {
    sent = take room part;
    unsent = drop room part;
    splits = sym (take-append-drop room part);
    trace_grows = written-wrote s.trace (take room part);
    complete = λ r. cc r;
    unbroken = λ free. absurd (cc (free, e));
  })
]

send_part-Writes : (part : Bytes) (s : Socket) → Writes part s (send_part part s)
unfolding send_part sendall
send_part-Writes [] s = record {
  sent = [];
  unsent = [];
  splits = refl;
  trace_grows = sym (append-nil (written s.trace));
  complete = λ _. refl;
  unbroken = λ free. (refl, free);
}
send_part-Writes (b ∷ bs) s = send_within-Writes s.breaks (b ∷ bs) s refl

written-pause :
    (delay : ℕ) (rest : List Bytes) (s : Socket)
    → written (pause delay rest s).trace ≡ written s.trace
unfolding pause
written-pause delay [] s = refl
written-pause delay (p ∷ rest) s = elim (Bool-cases (delay == 0)) [
  | inl z ↦ rw z refl
  | inr nz ↦ rw nz (written-append s.trace (slept delay ∷ []) ∙ append-nil (written s.trace))
]

breaks-pause : (delay : ℕ) (rest : List Bytes) (s : Socket) → (pause delay rest s).breaks ≡ s.breaks
unfolding pause
breaks-pause delay [] s = refl
breaks-pause delay (p ∷ rest) s = ground arith

after_part-Writes :
    (part : Bytes) (rest : List Bytes) (delay : ℕ) (s : Socket) (out : Outcome (Unit {0}) × Socket)
    → Writes part s out
    → ((s' : Socket) → Writes (flatten rest) s' (write_parts rest delay s'))
    → Writes
        (part ++ flatten rest)
        s
        (after_part (λ s'. write_parts rest delay (pause delay rest s')) out)
after_part-Writes part rest delay s (raised e, s') w next = record {
  sent = w.sent;
  unsent = w.unsent ++ flatten rest;
  splits = ap (λ p. p ++ flatten rest) w.splits ∙ append_assoc w.sent w.unsent (flatten rest);
  trace_grows = w.trace_grows;
  complete = λ r. cc r;
  unbroken = λ free. absurd (cc ((w.unbroken free).0));
}
after_part-Writes part rest delay s (returned _, s') w next =
    let w' = next (pause delay rest s') in
    let all : w.unsent ≡ [] = w.complete refl in
    let first : part ≡ w.sent = w.splits ∙ rw all (append-nil w.sent) in
    record {
      sent = w.sent ++ w'.sent;
      unsent = w'.unsent;
      splits = ap₂ ◌++◌ first w'.splits ∙ sym (append_assoc w.sent w'.sent w'.unsent);
      trace_grows =
          w'.trace_grows
          ∙ ap (λ t. t ++ w'.sent) (written-pause delay rest s' ∙ w.trace_grows)
          ∙ append_assoc (written s.trace) w.sent w'.sent;
      complete = w'.complete;
      unbroken = λ free. w'.unbroken (breaks-pause delay rest s' ∙ (w.unbroken free).1);
    }

pub write_parts-Writes :
    (parts : List Bytes) (delay : ℕ) (s : Socket)
    → Writes (flatten parts) s (write_parts parts delay s)
unfolding write_parts flatten
write_parts-Writes [] delay s = record {
  sent = [];
  unsent = [];
  splits = refl;
  trace_grows = sym (append-nil (written s.trace));
  complete = λ _. refl;
  unbroken = λ free. (refl, free);
}
write_parts-Writes (part ∷ rest) delay s =
    after_part-Writes part rest delay s (send_part part s) (send_part-Writes part s)
      (write_parts-Writes rest delay)

-- A payload of 1 to 65535 bytes is written as the scenario's stream, up to where writing breaks;
-- on a connection that does not break the call returns.
pub send_frame-Writes :
    (payload : Bytes) (scenario : Scenario) (delay : ℕ) (s : Socket)
    → 1 ≤ length payload
    → length payload ≤ 65535
    → Writes (stream_of scenario payload) s (send_frame payload scenario delay s)
unfolding send_frame
send_frame-Writes payload scenario delay s h k =
    rw
      (
        le→leb 1 (length payload) h,
        le→leb (length payload) 65535 k,
        ← flatten-frame_parts scenario payload,
      )
      (write_parts-Writes (frame_parts scenario payload) delay s)

-- Any other payload is refused before a byte is written.
pub send_frame_refused :
    (payload : Bytes) (scenario : Scenario) (delay : ℕ) (s : Socket)
    → (length payload ≡ 0) ⊎ (65535 < length payload)
    → send_frame payload scenario delay s ≡ (raised (format payload_length), s)
unfolding send_frame
send_frame_refused payload scenario delay s h = ground arith
