-- ===== src/Proxy/Frame/Recv.antt =====
-- Reading does not depend on how the bytes arrive.
use dns_server_lan_fixtures.Prelude.{
  inl, inr, List-cases, ap, sym, ◌∙◌, drop-append_right, take-append_right, take, drop, ◌<◌,
  append-nil, append_assoc, ℕ, zero, suc, ◌+◌, ◌-◌, ◌≤◌, ◌≡◌, refl, List, [], ◌∷◌, ◌++◌, arith,
  Bytes, length, length-append, lt→ltb, le→ltb,
}
use dns_server_lan_fixtures.Outcome.{raised, returned, Error, Outcome}
use dns_server_lan_fixtures.Proxy.Socket.{
  Arrival, available, ending, Reads, recv_from-Reads, recv_from_ended,
}
use dns_server_lan_fixtures.Proxy.Frame.{recv_loop, recv_exact}

-- `size` bytes were there: these are returned and the others are left.
pub record Received (out : Outcome Bytes × List Arrival) (bytes : Bytes) (after : Bytes)
    (last : Error) : Type 0 where
  pub result : out.0 ≡ returned bytes
  pub left : available out.1 ≡ after
  pub same_ending : ending out.1 ≡ last

-- What `n` rounds of the loop promise, once `k` bytes are missing.
abbrev Promise : ℕ → ℕ → Type 0
Promise n size =
    (k : ℕ) (received : Bytes) (arrivals : List Arrival)
    → size ≡ length received + k
    → k ≤ n
    → k ≤ length (available arrivals)
    → Received (recv_loop n size received arrivals) (received ++ take k (available arrivals))
        (drop k (available arrivals)) (ending arrivals)

after_read :
    (n size k : ℕ) (received : Bytes) (arrivals : List Arrival) (r : Reads (suc k) arrivals)
    → Promise n size
    → size ≡ length received + suc k
    → k ≤ n
    → suc k ≤ length (available arrivals)
    → Received
        (recv_loop (suc n) size received arrivals)
        (received ++ take (suc k) (available arrivals))
        (drop (suc k) (available arrivals))
        (ending arrivals)
unfolding recv_loop
after_read n size k received arrivals r next e h a =
    let missing : size - length received ≡ suc k = omega arith in
    let part : Bytes = r.head ∷ r.tail in
    let more =
      next (suc k - length part) (received ++ part) r.rest
        (omega (arith, length-append received part, r.bounded)) (omega arith)
        (omega (arith, ap length r.splits, length-append part (available r.rest), r.bounded)) in
    let first : take (suc k) (available arrivals)
        ≡ part ++ take (suc k - length part) (available r.rest) =
      rw r.splits (take-append_right (suc k) part (available r.rest) r.bounded) in
    let last : drop (suc k) (available arrivals) ≡ drop (suc k - length part) (available r.rest) =
      rw r.splits (drop-append_right (suc k) part (available r.rest) r.bounded) in
    rw (lt→ltb (length received) size (omega arith), missing, r.result)
      (record {
        result =
            more.result
            ∙ ap returned (append_assoc received part _ ∙ ap (λ x. received ++ x) (sym first));
        left = more.left ∙ sym last;
        same_ending = more.same_ending ∙ r.same_ending;
      })

recv_loop-Received : (n size : ℕ) → Promise n size
unfolding recv_loop
recv_loop-Received zero size zero received arrivals e h a = record {
  result = ap returned (sym (append-nil received));
  left = refl;
  same_ending = refl;
}
recv_loop-Received zero size (suc k) received arrivals e h a = absurd (omega arith)
recv_loop-Received (suc n) size zero received arrivals e h a =
    rw (le→ltb (length received) size (omega arith))
      (record { result = ap returned (sym (append-nil received)); left = refl; same_ending = refl })
recv_loop-Received (suc n) size (suc k) received arrivals e h a =
    after_read n size k received arrivals
      (recv_from-Reads (suc k) arrivals (omega arith) (omega arith)) (recv_loop-Received n size) e
      (omega arith) a

-- Where `size` bytes arrive, in whatever chunks, `recv_exact` returns them and leaves the rest.
pub recv_exact-Received :
    (size : ℕ) (arrivals : List Arrival)
    → size ≤ length (available arrivals)
    → Received
        (recv_exact size arrivals)
        (take size (available arrivals))
        (drop size (available arrivals))
        (ending arrivals)
unfolding recv_exact
recv_exact-Received size arrivals h =
    recv_loop-Received size size size [] arrivals (omega arith) (omega arith) h

-- Too few bytes: the loop ends as the arrivals do.
Shortfall : ℕ → ℕ → Type 0
Shortfall n size =
    (received : Bytes) (arrivals : List Arrival)
    → length received + length (available arrivals) < size
    → size ≤ length received + n
    → (recv_loop n size received arrivals).0 ≡ raised (ending arrivals)

after_short_read :
    (n size : ℕ) (received : Bytes) (arrivals : List Arrival)
    → Reads (size - length received) arrivals
    → Shortfall n size
    → length received + length (available arrivals) < size
    → size ≤ length received + suc n
    → (recv_loop (suc n) size received arrivals).0 ≡ raised (ending arrivals)
unfolding recv_loop Shortfall
after_short_read n size received arrivals r next short fuel =
    let part : Bytes = r.head ∷ r.tail in
    rw (lt→ltb (length received) size (omega arith), r.result)
      (next (received ++ part) r.rest
          (omega (
            arith,
            ap length r.splits,
            length-append part (available r.rest),
            length-append received part,
          ))
          (omega (arith, length-append received part))
        ∙ ap raised r.same_ending)

no_read :
    (n size : ℕ) (received : Bytes) (arrivals : List Arrival)
    → available arrivals ≡ []
    → length received < size
    → (recv_loop (suc n) size received arrivals).0 ≡ raised (ending arrivals)
unfolding recv_loop
no_read n size received arrivals none_left short =
    rw (lt→ltb (length received) size short)
      (ground (arith, recv_from_ended (size - length received) arrivals none_left))

recv_loop-Shortfall : (n size : ℕ) → Shortfall n size
unfolding Shortfall
recv_loop-Shortfall zero size received arrivals short fuel = absurd (omega arith)
recv_loop-Shortfall (suc n) size received arrivals short fuel =
    elim (List-cases (available arrivals)) [
      | inl none_left ↦ no_read n size received arrivals none_left (omega arith)
      | inr (b, bs, e) ↦
          after_short_read n size received arrivals
            (recv_from-Reads (size - length received) arrivals (omega arith)
              (omega (arith, ap length e)))
            (recv_loop-Shortfall n size) short fuel
    ]

-- The peer's close or an exception before `size` bytes is reported as such.
pub recv_exact_short :
    (size : ℕ) (arrivals : List Arrival)
    → length (available arrivals) < size
    → (recv_exact size arrivals).0 ≡ raised (ending arrivals)
unfolding recv_exact Shortfall
recv_exact_short size arrivals h =
    recv_loop-Shortfall size size [] arrivals (omega arith) (omega arith)
