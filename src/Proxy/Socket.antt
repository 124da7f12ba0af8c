-- ===== src/Proxy/Socket.antt =====
-- A connected stream socket, as far as fault_proxy/dns_fault_proxy.py sees it: what arrives, what
-- was written and slept, and where writing breaks. A method returns a result and the new state.
use dns_server_lan_fixtures.Prelude.{
  arith, zero, suc, ap, ◌<◌, ◌≤◌, take-append-drop, length-take, Bool-cases, inl, inr, ◌⊎◌, refl, ℕ,
  ◌-◌, ◌≡◌, sym, Option, none, some, List, [], ◌∷◌, ◌++◌, append_assoc, Bytes, length, take, drop,
  leb, if◌then◌else◌,
}
use dns_server_lan_fixtures.Outcome.{eof, Error, Outcome, returned, raised}

-- What the next `recv` meets. A chunk has a first byte; the end of the list is the peer's close.
pub data Arrival : Type 0 where
  chunk : ℕ → Bytes → Arrival
  fails : Error → Arrival

-- Delays are numbers of microseconds.
pub data Effect : Type 0 where
  wrote : Bytes → Effect
  slept : ℕ → Effect

pub record Socket : Type 0 where
  pub arrivals : List Arrival
  pub trace : List Effect
  -- The number of bytes that can still be written, and the exception behind them.
  pub breaks : Option (ℕ × Error)

abbrev pub Io : Type 0 → Type 0
Io A = Socket → Outcome A × Socket

abbrev pub note : Socket → Effect → Socket
note s e = record s { trace = s.trace ++ e ∷ [] }

unfoldable pub put_back : Bytes → List Arrival → List Arrival
put_back [] rest = rest
put_back (b ∷ bs) rest = chunk b bs ∷ rest

-- sock.recv(size)
unfoldable pub recv_from : ℕ → List Arrival → Outcome Bytes × List Arrival
unfolding put_back
recv_from size [] = (returned [], [])
recv_from size (fails e ∷ rest) = (raised e, rest)
recv_from size (chunk b bs ∷ rest) =
    if leb (suc (length bs)) size
    then (returned (b ∷ bs), rest)
    else (returned (take size (b ∷ bs)), put_back (drop size (b ∷ bs)) rest)

unfoldable pub send_within : Option (ℕ × Error) → Bytes → Io (Unit {0})
send_within none part s = (returned tt, note s (wrote part))
send_within (some (room, e)) part s =
    if leb (length part) room
    then (returned tt, record (note s (wrote part)) { breaks = some (room - length part, e) })
    else (raised e, record (note s (wrote (take room part))) { breaks = some (0, e) })

-- sock.sendall(part)
unfoldable pub sendall : Bytes → Io (Unit {0})
unfolding send_within
sendall part s = send_within s.breaks part s

-- time.sleep(delay)
abbrev pub sleep : ℕ → Socket → Socket
sleep delay s = note s (slept delay)

-- The bytes that were written.
abbrev pub written : List Effect → Bytes
written [] = []
written (wrote p ∷ es) = p ++ written es
written (slept _ ∷ es) = written es

-- The bytes that arrive before the peer closes or a read fails.
abbrev pub available : List Arrival → Bytes
available [] = []
available (fails _ ∷ rest) = []
available (chunk b bs ∷ rest) = (b ∷ bs) ++ available rest

pub written-append : (es fs : List Effect) → written (es ++ fs) ≡ written es ++ written fs
written-append [] fs = refl
written-append (wrote p ∷ es) fs =
    rw (written-append es fs) (sym (append_assoc p (written es) (written fs)))
written-append (slept d ∷ es) fs = written-append es fs

-- How the arrivals end: by the peer's close, which `recv_exact` reports, or by an exception.
abbrev pub ending : List Arrival → Error
ending [] = eof
ending (fails e ∷ rest) = e
ending (chunk _ _ ∷ rest) = ending rest

available-put_back :
    (bs : Bytes) (rest : List Arrival) → available (put_back bs rest) ≡ bs ++ available rest
unfolding put_back
available-put_back [] rest = refl
available-put_back (b ∷ bs) rest = refl

ending-put_back : (bs : Bytes) (rest : List Arrival) → ending (put_back bs rest) ≡ ending rest
unfolding put_back
ending-put_back [] rest = refl
ending-put_back (b ∷ bs) rest = refl

-- A read that returns bytes returns the first of those available, and at most `size`.
pub record Reads (size : ℕ) (arrivals : List Arrival) : Type 0 where
  pub head : ℕ
  pub tail : Bytes
  pub rest : List Arrival
  pub result : recv_from size arrivals ≡ (returned (head ∷ tail), rest)
  pub splits : available arrivals ≡ (head ∷ tail) ++ available rest
  pub bounded : suc (length tail) ≤ size
  pub same_ending : ending rest ≡ ending arrivals

-- Where bytes are available, a read returns some of them.
pub recv_from-Reads :
    (size : ℕ) (arrivals : List Arrival)
    → 0 < size
    → 0 < length (available arrivals)
    → Reads size arrivals
unfolding recv_from
recv_from-Reads size [] h k = absurd (omega arith)
recv_from-Reads size (fails e ∷ rest) h k = absurd (omega arith)
recv_from-Reads zero (chunk b bs ∷ rest) h k = absurd (omega arith)
recv_from-Reads (suc n) (chunk b bs ∷ rest) h k =
    elim (Bool-cases (leb (suc (length bs)) (suc n))) [
      | inl fits ↦ record {
        head = b;
        tail = bs;
        rest = rest;
        result = rw fits refl;
        splits = refl;
        bounded = ground arith;
        same_ending = refl;
      }
      | inr long ↦ record {
        head = b;
        tail = take n bs;
        rest = put_back (drop n bs) rest;
        result = rw long refl;
        splits = ap (◌∷◌ b) (
            rw available-put_back (
              rw (← append_assoc (take n bs) (drop n bs) (available rest), take-append-drop n bs)
                refl));
        bounded = omega (arith, length-take n bs);
        same_ending = ending-put_back (drop n bs) rest;
      }
    ]

-- With nothing available, a read reports the close by no bytes, or raises.
pub recv_from_ended :
    (size : ℕ) (arrivals : List Arrival)
    → available arrivals ≡ []
    → (((recv_from size arrivals).0 ≡ returned []) × (ending arrivals ≡ eof))
      ⊎ ((recv_from size arrivals).0 ≡ raised (ending arrivals))
unfolding recv_from
recv_from_ended size [] h = inl (refl, refl)
recv_from_ended size (fails e ∷ rest) h = inr refl
recv_from_ended size (chunk b bs ∷ rest) h = absurd (cc h)
