-- ===== src/Proxy/Fresh/Reply/Size.antt =====
-- How long the replies of `answer_fresh` of fault_proxy/fresh_fixtures.py are.
use dns_server_lan_fixtures.Prelude.{
  ℕ, ◌≤◌, max, bit_or, ◌≡◌, refl, sym, inl, inr, Bool, true, false, not, ◌&&◌, ◌||◌, Option, none,
  some, List, [], ◌∷◌, ◌++◌, arith, Bytes, u16, u16_at, length, take, drop, length-append,
  length-take, length-drop, ltb, ◌==◌, if◌then◌else◌, Option-cases,
}
use dns_server_lan_fixtures.Outcome.{Outcome, returned, raised, ◌>>=◌, returned_injective}
use dns_server_lan_fixtures.Proxy.Fresh.Dns.{Edns, Rrset, Message, Dnspython, SizeLaws}
use dns_server_lan_fixtures.Proxy.Fresh.Records.{or_raise}
use dns_server_lan_fixtures.Proxy.Fresh.Rdtype
use dns_server_lan_fixtures.Proxy.Fresh.Reply.{
  set_tc, lacks, check_glue, keep_glue, glue_targets, required_glue, written_response,
  truncated_response, encode_response, error_response, error_message, answer_query, answer_fresh,
  respond, response_size, udp_size, opcode_of, flag,
}

-- A reply, if there is one, is so long at most.
pub record Fits (size : ℕ) (o : Outcome Bytes) : Type 0 where
  pub fits : (wire : Bytes) → o ≡ returned wire → length wire ≤ size

bind-Fits :
    {size : ℕ} {A : Type 0} (o : Outcome A) (rest : A → Outcome Bytes)
    → ((x : A) → o ≡ returned x → Fits size (rest x))
    → Fits size (o >>= rest)
bind-Fits (raised e) rest all = record { fits = λ wire same. cc }
bind-Fits (returned x) rest all = all x refl

returned-Fits : {size : ℕ} (wire : Bytes) → length wire ≤ size → Fits size (returned wire)
returned-Fits wire short = record { fits = λ out same. rw (sym (returned_injective same)) short }

or_raise-Fits :
    {size : ℕ} (o : Option Bytes)
    → ((wire : Bytes) → o ≡ some wire → length wire ≤ size)
    → Fits size (or_raise o)
or_raise-Fits none all = record { fits = λ wire same. cc }
or_raise-Fits (some wire) all = returned-Fits wire (all wire refl)

if-Fits :
    {size : ℕ} (b : Bool) (x y : Outcome Bytes)
    → Fits size x
    → Fits size y
    → Fits size (if b then x else y)
if-Fits true x y hx hy = hx
if-Fits false x y hx hy = hy

-- The flags are written over two bytes of a message that has them.
length-set_tc :
    (wire : Bytes) (size : ℕ) → length wire ≤ size → 4 ≤ size → length (set_tc wire) ≤ size
length-set_tc wire size short long =
    rw (length-append (take 2 wire) (u16 (bit_or (u16_at wire 2) 0x200) ++ drop 4 wire))
      (omega (arith, length-take 2 wire, length-drop 4 wire))

if_short :
    {size : ℕ} (b : Bool) (wire : Bytes)
    → length wire ≤ size
    → 4 ≤ size
    → length (if b then set_tc wire else wire) ≤ size
if_short true wire short long = length-set_tc wire _ short long
if_short false wire short long = short

or_raise-some : (o : Option Bytes) (wire : Bytes) → or_raise o ≡ returned wire → o ≡ some wire
or_raise-some none wire same = cc
or_raise-some (some x) wire same = cc

-- The sizes for which `to_wire` keeps its law.
abbrev IsSize : ℕ → Type 0
IsSize size = (512 ≤ size) × (size ≤ 65535)

udp_size-IsSize : (edns : Option Edns) → IsSize (udp_size edns)
udp_size-IsSize none = omega arith
udp_size-IsSize (some edns) = omega arith

response_size-IsSize : (tcp : Bool) (query : Message) → IsSize (response_size tcp query)
response_size-IsSize true query = omega arith
response_size-IsSize false query = udp_size-IsSize query.edns

-- What the client takes: a frame over TCP; over UDP 512 bytes without EDNS, and with EDNS at most
-- 4096 and no more than its payload size, which counts as 512 where it is less.
abbrev pub Takes : Bool → Option Edns → Bytes → Type 0
Takes true edns reply = length reply ≤ 65535
Takes false none reply = length reply ≤ 512
Takes false (some edns) reply = (length reply ≤ 4096) × (length reply ≤ max 512 edns.payload)

response_size-Takes :
    (tcp : Bool) (query : Message) (reply : Bytes)
    → length reply ≤ response_size tcp query
    → Takes tcp query.edns reply
response_size-Takes true query reply short = short
response_size-Takes false query reply short = by_edns query.edns short
  where
    by_edns : (edns : Option Edns) → length reply ≤ udp_size edns → Takes false edns reply
    by_edns none h = h
    by_edns (some edns) h = omega arith

module _ (dns : Dnspython) (laws : SizeLaws dns) where
  check_glue-Fits :
      {size : ℕ} (wire : Bytes) (required : List Rrset)
      → length wire ≤ size
      → 4 ≤ size
      → Fits size (check_glue dns wire required)
  unfolding check_glue
  check_glue-Fits wire [] short long = returned-Fits wire short
  check_glue-Fits wire (r ∷ rs) short long =
      bind-Fits (or_raise (dns.message_from_wire wire)) _
        (λ sent _. returned-Fits _ (if_short (lacks dns (r ∷ rs) sent.additional) wire short long))

  keep_glue-Fits :
      {size : ℕ} (response : Message) (wire : Bytes)
      → length wire ≤ size
      → 4 ≤ size
      → Fits size (keep_glue dns response wire)
  unfolding keep_glue
  keep_glue-Fits response wire short long =
      if-Fits (length response.answer == 0 && not response.flags.aa) _ _
        (bind-Fits (glue_targets dns response.authority) _ (λ targets _.
          check_glue-Fits wire (required_glue dns targets response.additional) short long))
        (returned-Fits wire short)

  encode_response-Fits :
      (response : Message) (size : ℕ) → IsSize size → Fits size (encode_response dns response size)
  unfolding encode_response written_response truncated_response
  encode_response-Fits response size (low, high) = elim (Option-cases (dns.to_wire response size)) [
    | inr (wire, whole) ↦
        rw whole (returned-Fits wire (laws.to_wire_fits response size wire low high whole))
    | inl too_big ↦ rw too_big (
        bind-Fits (or_raise (dns.to_wire_truncated response size)) _ (λ wire cut.
          keep_glue-Fits response wire
            (laws.to_wire_truncated_fits response size wire low high (or_raise-some _ wire cut))
            (omega arith)))
  ]

  error_response-Fits : (wire : Bytes) (rcode : ℕ) → Fits 65535 (error_response dns wire rcode)
  unfolding error_response
  error_response-Fits wire rcode =
      if-Fits (ltb (length wire) 12) _ _ (returned-Fits [] (omega arith)) (
        or_raise-Fits (dns.to_wire (error_message dns wire rcode) 65535) (λ reply written.
          laws.to_wire_fits (error_message dns wire rcode) 65535 reply (omega arith) (omega arith)
            written))

  answer_query-Fits :
      (wire : Bytes) (tcp : Bool) (query : Message)
      → Fits (response_size tcp query) (answer_query dns tcp wire (some query))
  unfolding answer_query
  answer_query-Fits wire tcp query = bind-Fits (respond dns query) _ (λ response _.
      encode_response-Fits response (response_size tcp query) (response_size-IsSize tcp query))

  any_query-Fits :
      (wire : Bytes) (parsed : Option Message) → Fits 65535 (answer_query dns true wire parsed)
  unfolding answer_query
  any_query-Fits wire none = error_response-Fits wire Rdtype.formerr
  any_query-Fits wire (some query) = answer_query-Fits wire true query

-- For every library that keeps the law of `to_wire`, what `answer_fresh` returns for a message that
-- dnspython parses, with the opcode QUERY, is as long as the client takes: at most 65535 bytes over
-- TCP; over UDP at most 512 without EDNS, and with EDNS at most 4096 and at most its payload size or
-- 512, whichever is more.
pub answer_fresh_fits :
    (dns : Dnspython) (laws : SizeLaws dns) (wire : Bytes) (tcp : Bool) (query : Message)
    → dns.message_from_wire wire ≡ some query
    → opcode_of wire ≡ 0
    → (reply : Bytes) → answer_fresh dns wire tcp ≡ returned reply
    → Takes tcp query.edns reply
unfolding answer_fresh
answer_fresh_fits dns laws wire tcp query parsed is_query reply answered =
    response_size-Takes tcp query reply (
      (if-Fits (ltb (length wire) 12 || flag wire 0x8000) _ _ (returned-Fits [] (omega arith))
          (rw (is_query, parsed) (answer_query-Fits dns laws wire tcp query))).fits
        reply answered)

-- What it returns over TCP fits in a frame, for every message.
pub answer_fresh-tcp_fits :
    (dns : Dnspython) (laws : SizeLaws dns) (wire reply : Bytes)
    → answer_fresh dns wire true ≡ returned reply
    → length reply ≤ 65535
unfolding answer_fresh
answer_fresh-tcp_fits dns laws wire reply answered =
    (if-Fits (ltb (length wire) 12 || flag wire 0x8000) _ _ (returned-Fits [] (omega arith)) (
        if-Fits (not (opcode_of wire == 0)) _ _ (error_response-Fits dns laws wire Rdtype.notimp)
          (any_query-Fits dns laws wire (dns.message_from_wire wire)))).fits
      reply answered
