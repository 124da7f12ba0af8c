-- ===== src/Proxy/Forward/Health.antt =====
-- When the health check passes.
use dns_server_lan_fixtures.Prelude.{
  ◌≤◌, bit_and, ◌≡◌, refl, ◌≢◌, ◌↔◌, ◌⊎◌, inl, inr, true, List, [], ◌∷◌, ◌++◌, arith, Bytes, codes,
  rstrip_dots, split_dots, u16_at, length, take, All, ltb, ◌==◌, Bool-cases,
}
use dns_server_lan_fixtures.Outcome.{
  FormatError, Error, Outcome, returned, raised, format, timed_out, eof, network, uncaught,
  health_header, health_id, health_not_response, health_not_authoritative,
}
use dns_server_lan_fixtures.Prelude.Int.{pos}
use dns_server_lan_fixtures.Proxy.Query.{
  build_query, query_labels, encode_labels, encode_label, is_ascii,
}
use dns_server_lan_fixtures.Proxy.Forward.{
  health_check, run_healthcheck, health_loop, is_passed_over, is_os_error, Attempt,
  validate_health_response,
}

-- The query that the health check sends.
abbrev pub health_query : Bytes
health_query =
    0x63 ∷ 0x13 ∷ 1 ∷ 0 ∷ 0 ∷ 1 ∷ 0 ∷ 0 ∷ 0 ∷ 0 ∷ 0 ∷ 0 ∷ 6 ∷ codes "normal"
    ++ (9 ∷ codes "transport")
    ++ (7 ∷ codes "example")
    ++ (4 ∷ codes "test")
    ++ (0 ∷ 0 ∷ 1 ∷ 0 ∷ 1 ∷ [])

-- A whole header with the transaction of the query, of an authoritative response.
pub record Healthy (response : Bytes) : Type 0 where
  pub whole_header : 12 ≤ length response
  pub same_id : u16_at response 0 ≡ 0x6313
  pub is_response : bit_and (u16_at response 2) 0x8000 ≢ 0
  pub authoritative : bit_and (u16_at response 2) 0x0400 ≢ 0

health-cases :
    (response : Bytes)
    → ((validate_health_response response 0x6313 ≡ returned tt) × Healthy response)
      ⊎ ((e : FormatError) × (validate_health_response response 0x6313 ≡ raised (format e))
          × ¬ Healthy response)
unfolding validate_health_response
health-cases response = elim (Bool-cases (ltb (length response) 12)) [
  | inl short ↦ inr (health_header, rw short refl, λ h. absurd (ground (arith, h.whole_header)))
  | inr whole ↦ elim (Bool-cases (u16_at response 0 == 0x6313)) [
    | inr other ↦ inr (health_id, rw (whole, other) refl, λ h. absurd (ground (arith, h.same_id)))
    | inl same ↦ elim (Bool-cases (bit_and (u16_at response 2) 0x8000 == 0)) [
      | inl q ↦
          inr (health_not_response, rw (whole, same, q) refl, λ h. h.is_response (ground arith))
      | inr r ↦ elim (Bool-cases (bit_and (u16_at response 2) 0x0400 == 0)) [
        | inl n ↦ inr (
          health_not_authoritative,
          rw (whole, same, r, n) refl,
          λ h. h.authoritative (ground arith),
        )
        | inr a ↦ inl (
          rw (whole, same, r, a) refl,
          record {
            whole_header = ground arith;
            same_id = ground arith;
            is_response = ground arith;
            authoritative = ground arith;
          },
        )
      ]
    ]
  ]
]

-- Some address sends a healthy datagram, cut at 4096 bytes.
pub data SomeHealthy : List Attempt → Type 0 where
  here :
      {datagram : Bytes} {rest : List Attempt}
      → Healthy (take 4096 datagram)
      → SomeHealthy (returned datagram ∷ rest)
  later :
      {attempt : Attempt} {rest : List Attempt} → SomeHealthy rest → SomeHealthy (attempt ∷ rest)

-- A socket raises `OSError`s only.
abbrev pub RaisesOs : Attempt → Type 0
RaisesOs (raised e) = is_os_error e ≡ true
RaisesOs (returned _) = Unit

passes_over : (e : Error) → is_os_error e ≡ true → is_passed_over e ≡ true
passes_over (format _) h = refl
passes_over timed_out h = refl
passes_over network h = refl
passes_over eof h = absurd (cc h)
passes_over uncaught h = absurd (cc h)

rest-SomeHealthy :
    {datagram : Bytes} {rest : List Attempt}
    → ¬ Healthy (take 4096 datagram)
    → SomeHealthy (returned datagram ∷ rest)
    → SomeHealthy rest
rest-SomeHealthy ill (here h) = absurd (ill h)
rest-SomeHealthy ill (later h) = h

health_loop-SomeHealthy :
    (attempts : List Attempt)
    → All RaisesOs attempts
    → SomeHealthy attempts
    → health_loop attempts ≡ returned tt
unfolding health_loop health_check
health_loop-SomeHealthy [] os h = elim h [ ]
health_loop-SomeHealthy (returned datagram ∷ rest) (_, os) h =
    elim (health-cases (take 4096 datagram)) [
      | inl (passes, _) ↦ rw passes refl
      | inr (e, refused, ill) ↦
          rw refused (health_loop-SomeHealthy rest os (rest-SomeHealthy ill h))
    ]
health_loop-SomeHealthy (raised e ∷ rest) (os_error, os) (later h) =
    rw (passes_over e os_error) (health_loop-SomeHealthy rest os h)

health_loop_returned :
    (attempts : List Attempt) → health_loop attempts ≡ returned tt → SomeHealthy attempts
unfolding health_loop health_check
health_loop_returned [] h = absurd (cc h)
health_loop_returned (returned datagram ∷ rest) h = elim (health-cases (take 4096 datagram)) [
  | inl (_, healthy) ↦ here healthy
  | inr (e, refused, ill) ↦ later (health_loop_returned rest (rw refused at h))
]
health_loop_returned (raised e ∷ rest) h = elim (Bool-cases (is_passed_over e)) [
  | inl passes ↦ later (health_loop_returned rest (rw passes at h))
  | inr stops ↦ absurd (cc (rw stops at h))
]

health_query_built :
    build_query (codes "normal.transport.example.test") (pos 1) (pos 0x6313) ≡ returned health_query
unfolding build_query encode_labels encode_label query_labels is_ascii rstrip_dots split_dots
health_query_built = refl

-- The health check, over sockets that raise `OSError`s only, passes exactly when some address that
-- its query is sent to sends an authoritative response with the query's transaction.
pub run_healthcheck_iff :
    (addresses : Bytes → Outcome (List Attempt)) (attempts : List Attempt)
    → addresses health_query ≡ returned attempts
    → All RaisesOs attempts
    → (run_healthcheck addresses ≡ returned tt) ↔ SomeHealthy attempts
unfolding run_healthcheck
run_healthcheck_iff addresses attempts found os =
    rw (health_query_built, found)
      (health_loop_returned attempts, health_loop-SomeHealthy attempts os)
