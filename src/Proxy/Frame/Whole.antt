-- ===== src/Proxy/Frame/Whole.antt =====
-- `recv_frame` against the stream it reads.
use dns_server_lan_fixtures.Prelude.{
  ◌+◌, ◌-◌, ◌≤◌, ◌≡◌, refl, ap, ◌∙◌, inl, inr, false, List, [], ◌∷◌, ◌++◌, arith, Bytes, u16,
  u16_at, u16_parts, length, take, drop, slice, length-append, length-drop, take-append,
  drop-append, ltb, ◌==◌, if◌then◌else◌, le→ltb, Bool-cases,
}
use dns_server_lan_fixtures.Outcome.{
  Error, Outcome, returned, raised, format, returned_injective, zero_length_frame,
}
use dns_server_lan_fixtures.Proxy.Socket.{Arrival, available, ending}
use dns_server_lan_fixtures.Proxy.Frame.{recv_exact, recv_body, recv_frame}
use dns_server_lan_fixtures.Proxy.Frame.Recv.{Received, recv_exact-Received, recv_exact_short}

recv_body-Received :
    (out : Outcome Bytes × List Arrival) (payload rest : Bytes) (last : Error)
    → 1 ≤ length payload
    → Received out (u16 (length payload)) (payload ++ rest) last
    → Received (recv_body out) payload rest last
unfolding recv_body
recv_body-Received (raised e, arrivals) payload rest last h r = absurd (cc (r.result))
recv_body-Received (returned prefix, arrivals) payload rest last h r =
    let size : u16_at prefix 0 ≡ length payload =
      ap (λ p. u16_at p 0) (returned_injective r.result) ∙ u16_parts (length payload) in
    let nonzero : (length payload == 0) ≡ false = ground arith in
    let body =
      recv_exact-Received (length payload) arrivals
        (omega (arith, ap length r.left, length-append payload rest)) in
    rw (size, nonzero)
      (record {
        result = body.result ∙ ap returned (rw r.left (take-append payload rest));
        left = body.left ∙ rw r.left (drop-append payload rest);
        same_ending = body.same_ending ∙ r.same_ending;
      })

-- A framed payload in front of other bytes is read whole, and the other bytes are left.
pub recv_frame-Received :
    (payload rest : Bytes) (arrivals : List Arrival)
    → 1 ≤ length payload
    → available arrivals ≡ u16 (length payload) ++ (payload ++ rest)
    → Received (recv_frame arrivals) payload rest (ending arrivals)
unfolding recv_frame
recv_frame-Received payload rest arrivals h e =
    recv_body-Received (recv_exact 2 arrivals) payload rest (ending arrivals) h
      (rw e at (recv_exact-Received 2 arrivals (omega (arith, ap length e))))

-- What a reader of the whole stream at once would return.
abbrev pub frame_of : Bytes → Error → Outcome Bytes
frame_of bytes last =
    if ltb (length bytes) 2
    then raised last
    else if u16_at bytes 0 == 0
    then raised (format zero_length_frame)
    else if ltb (length bytes) (2 + u16_at bytes 0)
    then raised last
    else returned (slice bytes 2 (2 + u16_at bytes 0))

u16_at-take : (bytes : Bytes) → 2 ≤ length bytes → u16_at (take 2 bytes) 0 ≡ u16_at bytes 0
u16_at-take [] h = absurd (omega arith)
u16_at-take (a ∷ []) h = absurd (omega arith)
u16_at-take (a ∷ b ∷ rest) h = refl

recv_body_frame :
    (out : Outcome Bytes × List Arrival) (bytes : Bytes) (last : Error)
    → 2 ≤ length bytes
    → Received out (take 2 bytes) (drop 2 bytes) last
    → (recv_body out).0 ≡ frame_of bytes last
unfolding recv_body
recv_body_frame (raised e, arrivals) bytes last h r = absurd (cc (r.result))
recv_body_frame (returned prefix, arrivals) bytes last h r =
    let n = u16_at bytes 0 in
    let size : u16_at prefix 0 ≡ n =
      ap (λ p. u16_at p 0) (returned_injective r.result) ∙ u16_at-take bytes h in
    let there : length (available arrivals) ≡ length bytes - 2 =
      omega (arith, ap length r.left, length-drop 2 bytes) in
    rw (size, le→ltb (length bytes) 2 h)
      (elim (Bool-cases (n == 0)) [
        | inl z ↦ rw z refl
        | inr nz ↦ rw nz (elim (Bool-cases (ltb (length bytes) (2 + n))) [
          | inl short ↦
              rw short (recv_exact_short n arrivals (ground arith) ∙ ap raised r.same_ending)
          | inr whole ↦
              let span : 2 + n - 2 ≡ n = omega arith in
              rw (whole, span)
                ((recv_exact-Received n arrivals (ground arith)).result
                  ∙ ap returned (rw r.left refl))
        ])
      ])

-- `recv_frame` returns, or raises, what the whole stream determines, in whatever chunks it comes.
pub recv_frame-frame_of :
    (arrivals : List Arrival)
    → (recv_frame arrivals).0 ≡ frame_of (available arrivals) (ending arrivals)
unfolding recv_frame
recv_frame-frame_of arrivals = elim (Bool-cases (ltb (length (available arrivals)) 2)) [
  | inl short ↦
      rw short (short_prefix (recv_exact 2 arrivals) (recv_exact_short 2 arrivals (ground arith)))
  | inr whole ↦
      recv_body_frame (recv_exact 2 arrivals) (available arrivals) (ending arrivals) (ground arith)
        (recv_exact-Received 2 arrivals (ground arith))
]
  where
    short_prefix :
        (out : Outcome Bytes × List Arrival) {e : Error}
        → out.0 ≡ raised e
        → (recv_body out).0 ≡ raised e
    short_prefix (raised e, rest) h = h
    short_prefix (returned prefix, rest) h = cc
