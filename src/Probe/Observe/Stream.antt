-- ===== src/Probe/Observe/Stream.antt =====
-- What `observe` reports of a stream, in whatever chunks it comes.
use dns_server_lan_fixtures.Prelude.{
  ℕ, zero, suc, ◌<◌, ◌≡◌, refl, sym, ap, ◌∙◌, inl, inr, Bool, true, false, not, List, [], ◌∷◌, ◌++◌,
  append-nil, append_assoc, flatten, arith, Bytes, length, drop, length-append, List-cases, leb,
  Bool-cases,
}
use dns_server_lan_fixtures.Outcome.{Outcome, returned, timed_out}
use dns_server_lan_fixtures.Proxy.Socket.{
  Arrival, chunk, fails, recv_from, put_back, recv_from-Reads, available,
}
use dns_server_lan_fixtures.Probe.Observe.{Reading, read_loop}

-- How the stream ends: by the peer's close, or by the client's timeout.
abbrev pub Ends : Bool → List Arrival → Type 0
Ends closing [] = closing ≡ true
Ends closing (fails e ∷ rest) = (closing ≡ false) × (e ≡ timed_out)
Ends closing (chunk _ _ ∷ rest) = Ends closing rest

put_back-Ends :
    (closing : Bool) (bs : Bytes) (rest : List Arrival)
    → Ends closing rest
    → Ends closing (put_back bs rest)
unfolding put_back
put_back-Ends closing [] rest h = h
put_back-Ends closing (b ∷ bs) rest h = h

recv_from-Ends :
    (closing : Bool) (size : ℕ) (arrivals : List Arrival)
    → 0 < length (available arrivals)
    → Ends closing arrivals
    → Ends closing (recv_from size arrivals).1
unfolding recv_from
recv_from-Ends closing size [] k h = h
recv_from-Ends closing size (fails e ∷ rest) k h = absurd (omega arith)
recv_from-Ends closing size (chunk b bs ∷ rest) k h =
    elim (Bool-cases (leb (suc (length bs)) size)) [
      | inl fits ↦ rw fits h
      | inr long ↦ rw long (put_back-Ends closing (drop size (b ∷ bs)) rest h)
    ]

-- All bytes that arrive were read.
pub record ReadAll (closing : Bool) (chunks : List Bytes) (arrivals : List Arrival)
    (out : Outcome Reading) : Type 0 where
  pub more : List Bytes
  pub result :
      out ≡ returned (record { chunks = chunks ++ more; eof = closing; late = not closing })
  pub whole : flatten more ≡ available arrivals

read_end :
    (closing : Bool) (n : ℕ) (chunks : List Bytes) (arrivals : List Arrival)
    → available arrivals ≡ []
    → Ends closing arrivals
    → ReadAll closing chunks arrivals (read_loop (suc n) chunks arrivals).0
unfolding read_loop recv_from flatten
read_end closing n chunks [] e h = record {
  more = [];
  result = rw (append-nil chunks, h) refl;
  whole = refl;
}
read_end closing n chunks (fails e ∷ rest) _ (h, late) = record {
  more = [];
  result = rw (append-nil chunks, h, late) refl;
  whole = refl;
}
read_end closing n chunks (chunk b bs ∷ rest) e h = absurd (cc e)

pub read_loop-ReadAll :
    (closing : Bool) (n : ℕ) (chunks : List Bytes) (arrivals : List Arrival)
    → length (available arrivals) < n
    → Ends closing arrivals
    → ReadAll closing chunks arrivals (read_loop n chunks arrivals).0
unfolding read_loop flatten
read_loop-ReadAll closing zero chunks arrivals h k = absurd (omega arith)
read_loop-ReadAll closing (suc n) chunks arrivals h k = elim (List-cases (available arrivals)) [
  | inl nothing ↦ read_end closing n chunks arrivals nothing k
  | inr (b, bs, some_left) ↦
      let r = recv_from-Reads 4096 arrivals (omega arith) (omega (arith, ap length some_left)) in
      let part = r.head ∷ r.tail in
      let kept : Ends closing r.rest =
        rw r.result at
          (recv_from-Ends closing 4096 arrivals (omega (arith, ap length some_left)) k) in
      let fewer : length (available r.rest) < n =
        omega (arith, ap length r.splits, length-append part (available r.rest)) in
      let ih = read_loop-ReadAll closing n (chunks ++ part ∷ []) r.rest fewer kept in
      record {
        more = part ∷ ih.more;
        result = rw r.result (
            ih.result
            ∙ ap (λ c. returned (record { chunks = c; eof = closing; late = not closing }))
                (append_assoc chunks (part ∷ []) ih.more));
        whole = ap (λ t. part ++ t) ih.whole ∙ sym r.splits;
      }
]
