-- ===== src/Proxy/Fresh/Transport/Faults.antt =====
-- The stream faults that `serve_fresh_tcp` injects.
use dns_server_lan_fixtures.Prelude.{
  ℕ, suc, ◌+◌, ◌/◌, ◌≤◌, min, ◌≡◌, refl, sym, false, none, [], ◌∷◌, ◌++◌, append-nil, flatten,
  arith, Bytes, Text, codes, eq_bytes, u16, length, le→leb,
}
use dns_server_lan_fixtures.Outcome.{Outcome, returned}
use dns_server_lan_fixtures.Proxy.Frame.Send.{framed}
use dns_server_lan_fixtures.Proxy.Fresh.Transport.{
  reply_parts, frame, reply_frame, send_parts, after_reply, serve_reply, serve_key, serve_answer,
  serve_fresh_tcp, scenario, change_id, change_question,
}
use dns_server_lan_fixtures.Proxy.Socket.{written-append, Socket, sendall, written, slept}
use dns_server_lan_fixtures.Proxy.Frame.{half_of}
use dns_server_lan_fixtures.Proxy.Calls.{after_call, give}
use dns_server_lan_fixtures.Proxy.Fresh.Dns.{Dnspython}
use dns_server_lan_fixtures.Proxy.Fresh.Transport.Stream.{
  Sends, sendall-Sends, after_call-Sends, send_parts-Sends,
}
use dns_server_lan_fixtures.Proxy.Fresh.Transport.Promises.{
  Fault, close_before, stall, mismatch_id, mismatch_question, close_prefix, close_body,
  length_mismatch, duplicate, trailing, fault_key, fault_stream, length-change_id,
  length-change_question, Promises, fault_stream-Promises,
}

pub frame-framed :
    (payload : Bytes) → length payload ≤ 65535 → frame payload ≡ returned (framed payload)
unfolding frame
frame-framed payload h = rw (le→leb (length payload) 65535 h) refl

nothing_sent : {A : Type 0} (x : A) (s : Socket) → s.breaks ≡ none → Sends [] x s (returned x, s)
nothing_sent x s free = record {
  result = refl;
  sent = sym (append-nil (written s.trace));
  unread = refl;
  unbroken = free;
}

-- A call and then `return x`.
pub then_give :
    {A B : Type 0} {y : A} (x : B) (a : Bytes) (s : Socket) (out : Outcome A × Socket)
    → Sends a y s out
    → Sends a x s (after_call (λ _. give x) out)
then_give {y = y} x a s out h =
    rw⁻¹ (append-nil a)
      (after_call-Sends (λ _. give x) a y s out h (λ s' free. nothing_sent x s' free))

pub sendall-give :
    {B : Type 0} (x : B) (part : Bytes) (s : Socket)
    → s.breaks ≡ none
    → Sends part x s (after_call (λ _. give x) (sendall part s))
sendall-give x part s free = then_give x part s (sendall part s) (sendall-Sends part s free)

-- One part, and then `return x`.
part-give :
    {B : Type 0} (x : B) (part : Bytes) (delay : ℕ) (s : Socket)
    → s.breaks ≡ none
    → Sends part x s (after_call (λ _. give x) (send_parts (part ∷ []) delay s))
unfolding flatten
part-give x part delay s free =
    then_give x part s (send_parts (part ∷ []) delay s)
      (rw (append-nil part) at (send_parts-Sends (part ∷ []) delay s free))

-- One part, and then another in one piece.
part-then :
    {B : Type 0} (x : B) (part more : Bytes) (delay : ℕ) (s : Socket)
    → s.breaks ≡ none
    → Sends (part ++ more) x s (
        after_call
          (λ _ s'. after_call (λ _. give x) (sendall more s'))
          (send_parts (part ∷ []) delay s))
unfolding flatten
part-then x part more delay s free =
    after_call-Sends (λ _ s'. after_call (λ _. give x) (sendall more s')) part tt s
      (send_parts (part ∷ []) delay s)
      (rw (append-nil part) at (send_parts-Sends (part ∷ []) delay s free))
      (λ s' free'. sendall-give x more s' free')

serve_key-fault :
    (answer : Bytes → Outcome Bytes) (f : Fault) (query reply : Bytes) (delay timeout : ℕ)
    (s : Socket)
    → s.breaks ≡ none
    → 2 ≤ length reply
    → length reply ≤ 65519
    → Sends
        (fault_stream f reply)
        false
        s
        (serve_key answer (fault_key f) query reply delay timeout s)
unfolding serve_key serve_reply reply_frame reply_parts after_reply eq_bytes
serve_key-fault answer close_before query reply delay timeout s free h k = nothing_sent false s free
serve_key-fault answer stall query reply delay timeout s free h k = record {
  result = refl;
  sent = written-append s.trace (slept (min 4000000 timeout) ∷ []);
  unread = refl;
  unbroken = free;
}
serve_key-fault answer mismatch_id query reply delay timeout s free h k =
    rw (frame-framed (change_id reply) (omega (arith, length-change_id reply h)))
      (part-give false (framed (change_id reply)) delay s free)
serve_key-fault answer mismatch_question query reply delay timeout s free h k =
    rw (frame-framed (change_question reply) (omega (arith, length-change_question reply)))
      (part-give false (framed (change_question reply)) delay s free)
serve_key-fault answer close_prefix query reply delay timeout s free h k =
    rw (frame-framed reply (omega arith)) (sendall-give false (u16 (length reply)) s free)
serve_key-fault answer close_body query reply delay timeout s free h k =
    let two_more : 2 + length reply / 2 ≡ suc (suc (length reply / 2)) = omega arith in
    rw (frame-framed reply (omega arith), two_more)
      (sendall-give false (u16 (length reply) ++ half_of reply) s free)
serve_key-fault answer length_mismatch query reply delay timeout s free h k =
    rw (frame-framed reply (omega arith), le→leb (length reply + 16) 65535 (omega arith))
      (sendall-give false (u16 (length reply + 16) ++ reply) s free)
serve_key-fault answer duplicate query reply delay timeout s free h k =
    rw (frame-framed reply (omega arith))
      (part-then false (framed reply) (framed reply) delay s free)
serve_key-fault answer trailing query reply delay timeout s free h k =
    rw (frame-framed reply (omega arith))
      (part-then false (framed reply) (0 ∷ 0x10 ∷ codes "garbage") delay s free)

pub serve_answer-key :
    (answer : Bytes → Outcome Bytes) (key query : Text) (delay timeout : ℕ) (reply : Bytes)
    → 1 ≤ length reply
    → length reply ≤ 65535
    → serve_answer answer key query delay timeout reply
      ≡ serve_key answer key query reply delay timeout
unfolding serve_answer
serve_answer-key answer key query delay timeout [] h k = absurd (omega arith)
serve_answer-key answer key query delay timeout (b ∷ bs) h k = rw (frame-framed (b ∷ bs) k) refl

-- On a connection that does not break, a reply of 2 to 65519 bytes to a query whose key is a fault's
-- is written as the stream that the fault promises, and the connection is not used again.
pub serve_fresh_tcp_fault :
    (dns : Dnspython) (answer : Bytes → Outcome Bytes) (f : Fault) (query reply : Bytes)
    (delay timeout : ℕ) (s : Socket)
    → scenario dns query ≡ fault_key f
    → answer query ≡ returned reply
    → 2 ≤ length reply
    → length reply ≤ 65519
    → s.breaks ≡ none
    → (stream : Bytes) × Promises f reply stream
      × Sends stream false s (serve_fresh_tcp dns answer query delay timeout s)
unfolding serve_fresh_tcp
serve_fresh_tcp_fault dns answer f query reply delay timeout s key answered h k free = (
  fault_stream f reply,
  fault_stream-Promises f reply h,
  rw
      (
        answered,
        key,
        serve_answer-key answer (fault_key f) query delay timeout reply (omega arith) (omega arith),
      )
      (serve_key-fault answer f query reply delay timeout s free h k),
)
