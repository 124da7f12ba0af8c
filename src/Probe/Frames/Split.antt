-- ===== src/Probe/Frames/Split.antt =====
-- `parse_frames` recovers the frames of a stream.
use dns_server_lan_fixtures.Prelude.{
  le→leb, ◌==◌, ◌||◌, leb, false, true, ap, sym, ◌∙◌, append_assoc, append-nil, slice, slice-append,
  u16, u16_parts, length-append, zero, suc, ◌≤◌, drop, drop-append_of_length, refl, ℕ, ◌+◌, ◌<◌,
  ◌≡◌, ◌⊎◌, Option, none, some, List, [], ◌∷◌, ◌++◌, arith, Bytes, u16_at, length, All,
  get_or-append, ltb, if◌then◌else◌,
}
use dns_server_lan_fixtures.Probe.Frames.{parse_loop, parse_frames}
use dns_server_lan_fixtures.Proxy.Frame.Send.{framed}

-- Frames one behind the other.
abbrev pub framed_all : List Bytes → Bytes
framed_all [] = []
framed_all (p ∷ ps) = framed p ++ framed_all ps

abbrev pub IsPayload : Bytes → Type 0
IsPayload p = (1 ≤ length p) × (length p ≤ 65535)

-- No complete frame stands in front.
abbrev pub IsRemainder : Bytes → Type 0
IsRemainder t = (length t < 2) ⊎ ((2 ≤ length t) × ((u16_at t 0 ≡ 0) ⊎ (length t < 2 + u16_at t 0)))

abbrev pub remainder_size : Bytes → Option ℕ
remainder_size t = if leb 2 (length t) then some (u16_at t 0) else none

u16_at-append : (pre t : Bytes) (i : ℕ) → i ≡ length pre → u16_at (pre ++ t) i ≡ u16_at t 0
u16_at-append pre t i e =
    let low : length pre + 0 ≡ i = omega arith in
    let high : length pre + 1 ≡ i + 1 = omega arith in
    omega (arith, rw low at (get_or-append pre t 0 0), rw high at (get_or-append pre t 1 0))

-- The loop stops at a remainder.
parse_loop-stop :
    (n : ℕ) (bytes pre t : Bytes) (i : ℕ) (acc : List Bytes)
    → bytes ≡ pre ++ t
    → i ≡ length pre
    → IsRemainder t
    → parse_loop (suc n) bytes i acc
      ≡ record { frames = acc; trailing = t; incomplete = remainder_size t }
unfolding parse_loop
parse_loop-stop n bytes pre t i acc e ie r =
    let size : length bytes ≡ i + length t = omega (arith, ap length e, length-append pre t) in
    let declared : u16_at bytes i ≡ u16_at t 0 = rw e (u16_at-append pre t i ie) in
    let left : drop i bytes ≡ t = rw e (drop-append_of_length i pre t (sym ie)) in
    rw (declared, left, size) (ground arith)

parse_loop-framed_all :
    (ps : List Bytes) (n : ℕ) (bytes pre t : Bytes) (i : ℕ) (acc : List Bytes)
    → bytes ≡ pre ++ (framed_all ps ++ t)
    → i ≡ length pre
    → length ps < n
    → All IsPayload ps
    → IsRemainder t
    → parse_loop n bytes i acc
      ≡ record { frames = acc ++ ps; trailing = t; incomplete = remainder_size t }
unfolding parse_loop
parse_loop-framed_all ps zero bytes pre t i acc e ie fuel v r = absurd (omega arith)
parse_loop-framed_all [] (suc n) bytes pre t i acc e ie fuel v r =
    rw append-nil (parse_loop-stop n bytes pre t i acc e ie r)
parse_loop-framed_all (p ∷ ps) (suc n) bytes pre t i acc e ie fuel (h, v) r =
    let rest : Bytes = framed_all ps ++ t in
    let split : bytes ≡ pre ++ (u16 (length p) ++ (p ++ rest)) = e ∙ rw append_assoc in
    let split' : bytes ≡ (pre ++ u16 (length p)) ++ (p ++ rest) = split ∙ rw append_assoc in
    let size : length bytes ≡ i + 2 + length p + length rest = omega (
      arith,
      ap length split,
      length-append pre (u16 (length p) ++ (p ++ rest)),
      length-append p rest,
    ) in
    let declared : u16_at bytes i ≡ length p =
      rw split (u16_at-append pre (u16 (length p) ++ (p ++ rest)) i ie) ∙ u16_parts (length p) in
    let before : i + 2 ≡ length (pre ++ u16 (length p)) =
      omega (arith, length-append pre (u16 (length p))) in
    let body : slice bytes (i + 2) (i + 2 + length p) ≡ p =
      rw split'
        (slice-append (i + 2) (i + 2 + length p) (pre ++ u16 (length p)) p rest before refl) in
    let ih =
      parse_loop-framed_all ps n bytes ((pre ++ u16 (length p)) ++ p) t (i + 2 + length p)
        (acc ++ p ∷ []) (split' ∙ sym (append_assoc (pre ++ u16 (length p)) p rest))
        (omega (arith, length-append (pre ++ u16 (length p)) p, before)) (omega arith) v r in
    let whole : leb (i + 2) (length bytes) ≡ true = le→leb _ _ (omega arith) in
    let complete : (length p == 0 || ltb (length bytes) (i + 2 + length p)) ≡ false =
      ground arith in
    rw (declared, whole, complete, body) (ih ∙ rw append_assoc)

length-framed_all : (ps : List Bytes) → All IsPayload ps → length ps ≤ length (framed_all ps)
length-framed_all [] v = omega arith
length-framed_all (p ∷ ps) (h, v) =
    omega (arith, length-framed_all ps v, length-append p (framed_all ps))

-- A stream of frames with a remainder that holds no complete frame is split into exactly those
-- frames and the remainder, whose declared size is reported if it has one.
pub parse_frames-framed_all :
    (ps : List Bytes) (t : Bytes)
    → All IsPayload ps
    → IsRemainder t
    → parse_frames (framed_all ps ++ t)
      ≡ record { frames = ps; trailing = t; incomplete = remainder_size t }
unfolding parse_frames parse_loop
parse_frames-framed_all [] [] v r = refl
parse_frames-framed_all [] (b ∷ t) v r =
    parse_loop-framed_all [] (suc (length t)) (b ∷ t) [] (b ∷ t) 0 [] refl refl (omega arith) v r
parse_frames-framed_all (p ∷ ps) t v r =
    let stream : Bytes = framed_all (p ∷ ps) ++ t in
    parse_loop-framed_all (p ∷ ps) (length stream) stream [] t 0 [] refl refl
      (omega (
        arith,
        length-append (framed_all (p ∷ ps)) t,
        length-append p (framed_all ps),
        length-framed_all ps v.1,
      ))
      v r
