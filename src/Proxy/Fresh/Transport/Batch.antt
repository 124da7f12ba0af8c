-- ===== src/Proxy/Fresh/Transport/Batch.antt =====
-- The batches of three replies of `serve_fresh_tcp`.
use dns_server_lan_fixtures.Prelude.{
  ℕ, ◌≤◌, ◌≡◌, refl, ap, ◌∙◌, Bool, true, false, none, List, [], ◌∷◌, ◌++◌, append-nil, flatten,
  arith, Bytes, Text, codes, eq_bytes, u16, u16_at, u16_parts, length, length-append, take-append,
  drop-append, if◌then◌else◌, le→ltb,
}
use dns_server_lan_fixtures.Outcome.{Error, Outcome, returned, raised, returned_injective}
use dns_server_lan_fixtures.Proxy.Fresh.Name.{reverse_onto}
use dns_server_lan_fixtures.Proxy.Fresh.Dns.{Dnspython}
use dns_server_lan_fixtures.Proxy.Socket.{Arrival, Socket, written, available, ending}
use dns_server_lan_fixtures.Proxy.Frame.{recv_exact}
use dns_server_lan_fixtures.Proxy.Frame.Recv.{Received, recv_exact-Received}
use dns_server_lan_fixtures.Proxy.Frame.Send.{framed}
use dns_server_lan_fixtures.Proxy.Fresh.Transport.{
  next, next_body, frames_of, serve_batch, serve_key, serve_fresh_tcp, scenario,
}
use dns_server_lan_fixtures.Proxy.Fresh.Transport.Faults.{
  frame-framed, serve_answer-key, sendall-give,
}

next_body-Received :
    (out : Outcome Bytes × List Arrival) (payload rest : Bytes) (last : Error)
    → 12 ≤ length payload
    → Received out (u16 (length payload)) (payload ++ rest) last
    → Received (next_body out) payload rest last
unfolding next_body
next_body-Received (raised e, arrivals) payload rest last h r = absurd (cc (r.result))
next_body-Received (returned prefix, arrivals) payload rest last h r =
    let size : u16_at prefix 0 ≡ length payload =
      ap (λ p. u16_at p 0) (returned_injective r.result) ∙ u16_parts (length payload) in
    let body =
      recv_exact-Received (length payload) arrivals
        (omega (arith, ap length r.left, length-append payload rest)) in
    rw (size, le→ltb (length payload) 12 h)
      (record {
        result = body.result ∙ ap returned (rw r.left (take-append payload rest));
        left = body.left ∙ rw r.left (drop-append payload rest);
        same_ending = body.same_ending ∙ r.same_ending;
      })

next-Received :
    (payload rest : Bytes) (arrivals : List Arrival)
    → 12 ≤ length payload
    → available arrivals ≡ framed payload ++ rest
    → Received (next arrivals) payload rest (ending arrivals)
unfolding next
next-Received payload rest arrivals h e =
    next_body-Received (recv_exact 2 arrivals) payload rest (ending arrivals) h
      (rw e at (recv_exact-Received 2 arrivals (omega (arith, ap length e))))

-- A query and the reply to it, that a frame holds.
pub record Replied (answer : Bytes → Outcome Bytes) (query reply : Bytes) : Type 0 where
  pub answered : answer query ≡ returned reply
  pub some_bytes : 1 ≤ length reply
  pub fits : length reply ≤ 65535

-- The order in which the three frames are sent.
abbrev pub batch_stream : Bool → Bytes → Bytes → Bytes → Bytes
batch_stream true a b c = framed c ++ (framed b ++ framed a)
batch_stream false a b c = framed a ++ (framed b ++ framed c)

abbrev pub batch_key : Bool → Text
batch_key true = codes "reordered"
batch_key false = codes "coalesced"

frames_of-Replied :
    (answer : Bytes → Outcome Bytes) {p q r a b c : Bytes}
    → Replied answer p a
    → Replied answer q b
    → Replied answer r c
    → frames_of answer (p ∷ q ∷ r ∷ []) ≡ returned (framed a ∷ framed b ∷ framed c ∷ [])
unfolding frames_of
frames_of-Replied answer x y z =
    rw
      (
        x.answered,
        y.answered,
        z.answered,
        frame-framed _ x.fits,
        frame-framed _ y.fits,
        frame-framed _ z.fits,
      )
      refl

batch-flatten :
    (reversed : Bool) (a b c : Bytes)
    → flatten (
        if eq_bytes (batch_key reversed) (codes "reordered")
        then reverse_onto (framed a ∷ framed b ∷ framed c ∷ []) []
        else framed a ∷ framed b ∷ framed c ∷ [])
      ≡ batch_stream reversed a b c
unfolding flatten eq_bytes
batch-flatten true a b c = ap (λ t. framed c ++ (framed b ++ t)) (append-nil (framed a))
batch-flatten false a b c = ap (λ t. framed a ++ (framed b ++ t)) (append-nil (framed c))

serve_batch_lem :
    (answer : Bytes → Outcome Bytes) (reversed : Bool) (p q r a b c rest : Bytes) (s : Socket)
    → Replied answer p a
    → Replied answer q b
    → Replied answer r c
    → 12 ≤ length q
    → 12 ≤ length r
    → available s.arrivals ≡ framed q ++ (framed r ++ rest)
    → s.breaks ≡ none
    → ((serve_batch answer (batch_key reversed) p s).0 ≡ returned false)
      × (written (serve_batch answer (batch_key reversed) p s).1.trace
          ≡ written s.trace ++ batch_stream reversed a b c)
unfolding serve_batch
serve_batch_lem answer reversed p q r a b c rest s x y z hq hr e free =
    let second = next-Received q (framed r ++ rest) s.arrivals hq e in
    let third = next-Received r rest (next s.arrivals).1 hr second.left in
    let s' : Socket = record s { arrivals = (next (next s.arrivals).1).1 } in
    let sends = sendall-give false (batch_stream reversed a b c) s' free in
    rw (second.result, third.result, frames_of-Replied answer x y z, batch-flatten reversed a b c)
      (sends.result, sends.sent)

serve_key-batch :
    (answer : Bytes → Outcome Bytes) (reversed : Bool) (query reply : Bytes) (delay timeout : ℕ)
    → serve_key answer (batch_key reversed) query reply delay timeout
      ≡ serve_batch answer (batch_key reversed) query
unfolding serve_key eq_bytes
serve_key-batch answer true query reply delay timeout = refl
serve_key-batch answer false query reply delay timeout = refl

-- On a connection that does not break, for the keys "reordered" and "coalesced" two more queries
-- of 12 bytes at least are read, in whatever chunks they come, and the three replies, of 1 to
-- 65535 bytes, are sent: reversed for "reordered", else in the order of the queries. The
-- connection is not used again.
pub serve_fresh_tcp_batch :
    (dns : Dnspython) (answer : Bytes → Outcome Bytes) (reversed : Bool) (p q r a b c rest : Bytes)
    (delay timeout : ℕ) (s : Socket)
    → scenario dns p ≡ batch_key reversed
    → Replied answer p a
    → Replied answer q b
    → Replied answer r c
    → 12 ≤ length q
    → 12 ≤ length r
    → available s.arrivals ≡ framed q ++ (framed r ++ rest)
    → s.breaks ≡ none
    → ((serve_fresh_tcp dns answer p delay timeout s).0 ≡ returned false)
      × (written (serve_fresh_tcp dns answer p delay timeout s).1.trace
          ≡ written s.trace ++ batch_stream reversed a b c)
unfolding serve_fresh_tcp
serve_fresh_tcp_batch dns answer reversed p q r a b c rest delay timeout s key x y z hq hr e free =
    rw
      (
        x.answered,
        key,
        serve_answer-key answer (batch_key reversed) p delay timeout a x.some_bytes x.fits,
        serve_key-batch answer reversed p a delay timeout,
      )
      (serve_batch_lem answer reversed p q r a b c rest s x y z hq hr e free)
