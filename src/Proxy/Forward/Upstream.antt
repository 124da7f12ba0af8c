-- ===== src/Proxy/Forward/Upstream.antt =====
-- What `forward_tcp` and `forward_udp` return.
use dns_server_lan_fixtures.Prelude.{
  ◌≤◌, ◌≡◌, refl, sym, ap, ◌∙◌, ◌↔◌, ◌⊎◌, inl, inr, true, false, Option, none, some, List, [], ◌∷◌,
  arith, Bytes, eq_bytes, eq_bytes_iff, length, take, ltb, le→ltb, le→leb, Bool-cases,
}
use dns_server_lan_fixtures.Outcome.{
  Error, Outcome, returned, raised, format, returned_injective, upstream_header, upstream_id,
}
use dns_server_lan_fixtures.Proxy.Frame.Whole.{frame_of, recv_frame-frame_of}
use dns_server_lan_fixtures.Proxy.Socket.{Socket, sendall, available, ending}
use dns_server_lan_fixtures.Proxy.Forward.{
  Socket, forward_tcp, forward_udp, is_os_error, Attempt, udp_loop, checked_response,
  validate_upstream_response,
}

-- A response to the query: a whole header with the query's transaction.
pub record Answers (query response : Bytes) : Type 0 where
  pub whole_header : 12 ≤ length response
  pub same_id : take 2 response ≡ take 2 query

validate-Answers :
    (query response : Bytes)
    → Answers query response
    → validate_upstream_response query response ≡ returned tt
unfolding validate_upstream_response
validate-Answers query response a =
    let same : eq_bytes (take 2 response) (take 2 query) ≡ true =
      (eq_bytes_iff (take 2 response) (take 2 query)).1 (a.same_id) in
    rw (le→ltb (length response) 12 (a.whole_header), same) refl

checked_response-Answers :
    (query response : Bytes)
    → Answers query response
    → checked_response query (returned response) ≡ returned response
unfolding checked_response
checked_response-Answers query response a = rw (validate-Answers query response a) refl

-- A response that is refused ends `forward_udp`: its exception is no `OSError`.
response-cases :
    (query response : Bytes)
    → Answers query response
      ⊎ ((e : Error) × (checked_response query (returned response) ≡ raised e)
          × (is_os_error e ≡ false))
unfolding checked_response validate_upstream_response
response-cases query response = elim (Bool-cases (ltb (length response) 12)) [
  | inl short ↦ inr (format upstream_header, rw short refl, refl)
  | inr whole ↦ elim (Bool-cases (eq_bytes (take 2 response) (take 2 query))) [
    | inl same ↦ inl (record {
      whole_header = ground arith;
      same_id = (eq_bytes_iff (take 2 response) (take 2 query)).0 same;
    })
    | inr other ↦ inr (format upstream_id, rw (whole, other) refl, refl)
  ]
]

checked_response_returned :
    (query response : Bytes) {r : Bytes}
    → checked_response query (returned response) ≡ returned r
    → (response ≡ r) × Answers query r
checked_response_returned query response h = elim (response-cases query response) [
  | inl a ↦
      let same = returned_injective (sym (checked_response-Answers query response a) ∙ h) in
      (same, rw (← same) a)
  | inr (e, refused, other) ↦ absurd (cc (rw refused at h))
]

-- The first address whose socket does not fail sends the response.
pub data FirstAnswer (query response : Bytes) : List Attempt → Type 0 where
  here :
      {datagram : Bytes} {rest : List Attempt}
      → take 65535 datagram ≡ response
      → Answers query response
      → FirstAnswer query response (returned datagram ∷ rest)
  later :
      {e : Error} {rest : List Attempt}
      → is_os_error e ≡ true
      → FirstAnswer query response rest
      → FirstAnswer query response (raised e ∷ rest)

udp_loop-FirstAnswer :
    (query response : Bytes) (attempts : List Attempt) (last : Option Error)
    → FirstAnswer query response attempts
    → udp_loop attempts last query ≡ returned response
unfolding udp_loop
udp_loop-FirstAnswer query response [] last h = elim h [ ]
udp_loop-FirstAnswer query response (_ ∷ rest) last (here same a) =
    rw same (rw (checked_response-Answers query response a) refl)
udp_loop-FirstAnswer query response (_ ∷ rest) last (later {e = e} os more) =
    rw os (udp_loop-FirstAnswer query response rest (some e) more)

udp_loop_returned :
    (query response : Bytes) (attempts : List Attempt) (last : Option Error)
    → udp_loop attempts last query ≡ returned response
    → FirstAnswer query response attempts
unfolding udp_loop checked_response
udp_loop_returned query response [] last h = absurd (cc h)
udp_loop_returned query response (raised e ∷ rest) last h = elim (Bool-cases (is_os_error e)) [
  | inl os ↦ later os (udp_loop_returned query response rest (some e) (rw os at h))
  | inr other ↦ absurd (cc (rw other at h))
]
udp_loop_returned query response (returned datagram ∷ rest) last h =
    elim (response-cases query (take 65535 datagram)) [
      | inl a ↦
          let sent = checked_response-Answers query (take 65535 datagram) a in
          let same = returned_injective (rw sent at h) in here same (rw (← same) a)
      | inr (e, refused, other) ↦ absurd (cc (rw (refused, other) at h))
    ]

-- `forward_udp` returns the datagram of the first address whose socket does not fail, cut at 65535
-- bytes, where it answers the query, and returns nothing else.
pub forward_udp_iff :
    (query response : Bytes) (attempts : List Attempt)
    → (forward_udp (returned attempts) query ≡ returned response)
      ↔ FirstAnswer query response attempts
unfolding forward_udp
forward_udp_iff query response attempts = (
  udp_loop_returned query response attempts none,
  udp_loop-FirstAnswer query response attempts none,
)

pub checked_response_iff :
    (query : Bytes) (out : Outcome Bytes) {response : Bytes}
    → (checked_response query out ≡ returned response)
      ↔ ((out ≡ returned response) × Answers query response)
unfolding checked_response
checked_response_iff query (raised e) = ground arith
checked_response_iff query (returned datagram) {response} = (
  λ h. let (same, a) = checked_response_returned query datagram h in (ap returned same, a),
  λ (same, a).
      let eq = returned_injective same in rw eq (checked_response-Answers query response a),
)

-- Over a connection that takes the query, of at most 65535 bytes, `forward_tcp` returns a
-- response that answers the query, read from the stream in whatever chunks it comes, and returns
-- nothing else.
pub forward_tcp_iff :
    (query response : Bytes) (upstream : Socket)
    → length query ≤ 65535
    → upstream.breaks ≡ none
    → (forward_tcp (returned upstream) query ≡ returned response) ↔ (
        (frame_of (available upstream.arrivals) (ending upstream.arrivals) ≡ returned response)
        × Answers query response)
unfolding forward_tcp sendall
forward_tcp_iff query response upstream h free =
    rw (le→leb (length query) 65535 h, free, recv_frame-frame_of upstream.arrivals)
      (checked_response_iff query
        (frame_of (available upstream.arrivals) (ending upstream.arrivals)))

-- Whatever `forward_udp` returns is the first answer of the addresses that are found.
pub forward_udp-FirstAnswer :
    (query : Bytes) (addresses : Outcome (List Attempt)) {response : Bytes}
    → forward_udp addresses query ≡ returned response
    → (attempts : List Attempt) × (addresses ≡ returned attempts)
      × FirstAnswer query response attempts
unfolding forward_udp
forward_udp-FirstAnswer query (raised e) h = absurd (cc h)
forward_udp-FirstAnswer query (returned attempts) {response} h =
    (attempts, refl, (forward_udp_iff query response attempts).0 h)
