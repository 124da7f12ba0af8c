-- ===== src/Proxy/Fresh/Reply.antt =====
-- `_error_response`, `_encode_response` and `answer_fresh` of fault_proxy/fresh_fixtures.py.
pub mod Respond
pub mod Size
pub mod Servers
pub mod Glue
pub mod Uncaught
pub mod Isolation
pub mod Malformed
mod Tests
use dns_server_lan_fixtures.Prelude.{
  ℕ, zero, suc, ◌+◌, ◌-◌, ◌*◌, ◌/◌, ◌%◌, ◌^◌, ◌≤◌, ◌<◌, min, max, bit_and, bit_or, ◌≡◌, refl, sym,
  ap, ◌∙◌, ◌≡⟨◌⟩◌, ◌∎, ◌≢◌, ◌↔◌, ◌⊎◌, inl, inr, Bool, true, false, not, ◌&&◌, ◌||◌, Option, none,
  some, List, [], ◌∷◌, ◌++◌, map, append-nil, append_assoc, flatten, arith, Bytes, Text, codes,
  to_lower, lower, lower_idem, eq_bytes, eq_bytes_iff, mem_bytes, rstrip_dots, split_dots,
  join_dots, join_dots-split_dots, split_dots-cons, u16, u16_at, u16_parts, length, get_or, take,
  drop, slice, All, length-append, take-append-drop, length-take, length-drop, take_ge, drop_ge,
  take-append, drop-append, take-append_of_length, drop-append_of_length, take-append_left,
  drop-append_left, drop-drop, get_or-append, get_or-drop, length-map, get_or-append_head,
  get_or-append_left, All-append, All-get_or, List-cases, slice-append, take-append_right,
  drop-append_right, and_left, and_right, and_true, ltb, leb, ◌==◌, if◌then◌else◌, ltb→lt, lt→ltb,
  le→ltb, leb→le, le→leb, lt→leb, ==_iff, ==_refl, Bool-cases, Option-cases,
}
use dns_server_lan_fixtures.Outcome.{
  FormatError, Error, Outcome, returned, raised, format, timed_out, eof, network, uncaught, ◌>>=◌,
  ◌>>◌, reject_if, bind-eq-returned, returned_injective, transaction_id_range, query_type_range,
  query_label_ascii, query_label_length, query_name_length, truncated_name, truncated_pointer,
  pointer_out_of_bounds, pointer_loop, label_length_bits, truncated_label, label_ascii,
  excessive_depth, header_truncated, question_count, truncated_question, zero_length_frame,
  payload_length, health_header, health_id, health_not_response, health_not_authoritative,
  upstream_header, upstream_id,
}
use dns_server_lan_fixtures.Proxy.Fresh.Dns.{Name, Flags, Question, Rrset, Edns, Message, Dnspython}
use dns_server_lan_fixtures.Proxy.Fresh.Name.{Key, name_key, zone_of}
use dns_server_lan_fixtures.Proxy.Fresh.Rdtype
use dns_server_lan_fixtures.Proxy.Fresh.Records.{or_raise}
use dns_server_lan_fixtures.Proxy.Fresh.Additional.{last_word, mem_rrset}
use dns_server_lan_fixtures.Proxy.Fresh.Answer.{with_rcode, answer}

-- A bit of the flags of a message.
abbrev pub flag : Bytes → ℕ → Bool
flag wire bit = u16_at wire 2 / bit % 2 == 1

-- dns.opcode.from_flags(flags)
abbrev pub opcode_of : Bytes → ℕ
opcode_of wire = u16_at wire 2 / 0x800 % 16

-- `QR | (flags & (0x7800 | RD | CD))`
abbrev pub error_flags : Bytes → Flags
error_flags wire = record {
  qr = true;
  opcode = opcode_of wire;
  aa = false;
  tc = false;
  rd = flag wire 0x100;
  ra = false;
  ad = false;
  cd = flag wire 0x10;
}

-- `use_edns(edns=0, payload=1232, ednsflags=…)`
abbrev pub own_edns : Bool → Edns
own_edns dnssec_ok = record { version = 0; payload = 1232; dnssec_ok = dnssec_ok }

-- Where a loop stands: an exception has ended it, or it goes on at an offset.
pub data Scan : Type 0 where
  stopped : Scan
  reached : ℕ → Scan

-- The loop over the questions: what it has appended, and where it stands.
unfoldable pub scan_questions :
    Dnspython → Bytes → Bool → ℕ → ℕ → List Question → List Question × Scan
scan_questions dns wire keep zero offset found = (found, reached offset)
scan_questions dns wire keep (suc n) offset found = elim (dns.name_from_wire wire offset) [
  | none ↦ (found, stopped)
  | some (name, used) ↦
      let behind = offset + used in
      let question : Question = record {
        labels = name;
        rdtype = u16_at wire behind;
        rdclass = u16_at wire (behind + 2);
      } in
      if ltb (length wire) (behind + 4)
      then (found, stopped)
      else scan_questions dns wire keep n (behind + 4)
          (if keep then found ++ question ∷ [] else found)
]

-- `if kind == OPT and response.edns < 0`
abbrev pub note_edns : Bytes → ℕ → Option Edns → Option Edns
note_edns wire at (some edns) = some edns
note_edns wire at none =
    if u16_at wire at == Rdtype.opt
    then some (own_edns (u16_at wire (at + 6) / 0x8000 % 2 == 1))
    else none

-- The loop over the records.
unfoldable pub scan_records : Dnspython → Bytes → ℕ → ℕ → Option Edns → Option Edns
scan_records dns wire zero offset edns = edns
scan_records dns wire (suc n) offset edns = elim (dns.name_from_wire wire offset) [
  | none ↦ edns
  | some (_, used) ↦
      let behind = offset + used in
      let end = behind + 10 + u16_at wire (behind + 8) in
      let noted = note_edns wire behind edns in
      if ltb (length wire) (behind + 10)
      then edns
      else if ltb (length wire) end
      then noted
      else scan_records dns wire n end noted
]

abbrev scan_behind : Dnspython → Bytes → Scan → Option Edns
unfolding scan_records
scan_behind dns wire stopped = none
scan_behind dns wire (reached offset) =
    scan_records dns wire (u16_at wire 6 + u16_at wire 8 + u16_at wire 10) offset none

-- The response of `_error_response`, before it is written.
unfoldable pub error_message : Dnspython → Bytes → ℕ → Message
unfolding scan_questions scan_records
error_message dns wire rcode =
    let keep = u16_at wire 4 == 1 && opcode_of wire == 0 in
    let (questions, scan) = scan_questions dns wire keep (u16_at wire 4) 12 [] in
    record {
      id = u16_at wire 0;
      flags = error_flags wire;
      rcode = rcode;
      questions = questions;
      answer = [];
      authority = [];
      additional = [];
      edns = scan_behind dns wire scan;
    }

-- _error_response(wire, rcode)
unfoldable pub error_response : Dnspython → Bytes → ℕ → Outcome Bytes
unfolding error_message
error_response dns wire rcode =
    if ltb (length wire) 12
    then returned []
    else or_raise (dns.to_wire (error_message dns wire rcode) 65535)

-- `wire[:2] + struct.pack("!H", sent.flags | TC) + wire[4:]`: dnspython reads the flags of a
-- message from its bytes 2 and 3.
abbrev pub set_tc : Bytes → Bytes
set_tc wire = take 2 wire ++ (u16 (bit_or (u16_at wire 2) 0x200) ++ drop 4 wire)

abbrev pub answered_edns : Option Edns → Option Edns → Option Edns
answered_edns none made = made
answered_edns (some edns) made = some (own_edns edns.dnssec_ok)

abbrev pub set_aa : Message → Message
set_aa m = record m { flags = record (m.flags) { aa = true } }

abbrev pub above_zero : Option Edns → Bool
above_zero none = false
above_zero (some edns) = ltb 0 edns.version

abbrev pub udp_size : Option Edns → ℕ
udp_size none = 512
udp_size (some edns) = max 512 (min edns.payload 4096)

abbrev pub response_size : Bool → Message → ℕ
response_size tcp query = if tcp then 65535 else udp_size query.edns

module _ (dns : Dnspython) where
  -- The names that the records of a set name, of those in its domain.
  abbrev pub targets_of_items : Name → List Text → Outcome (List Name)
  unfolding last_word
  targets_of_items owner [] = returned []
  targets_of_items owner (item ∷ items) = do
    named ← or_raise (dns.name_from_text (last_word item))
    more ← targets_of_items owner items
    returned (if dns.is_subdomain named owner then named ∷ more else more)

  -- `glue_targets`
  unfoldable pub glue_targets : List Rrset → Outcome (List Name)
  unfolding last_word
  glue_targets [] = returned []
  glue_targets (r ∷ rs) = do
    own ← if r.rdtype == Rdtype.ns then targets_of_items r.owner r.items else returned []
    more ← glue_targets rs
    returned (own ++ more)

  abbrev pub mem_name : Name → List Name → Bool
  mem_name n [] = false
  mem_name n (x ∷ xs) = dns.name_eq n x || mem_name n xs

  -- `required`
  unfoldable pub required_glue : List Name → List Rrset → List Rrset
  required_glue targets [] = []
  required_glue targets (r ∷ rs) =
      if mem_name r.owner targets && (r.rdtype == Rdtype.a || r.rdtype == Rdtype.aaaa)
      then r ∷ required_glue targets rs
      else required_glue targets rs

  -- any(rrset not in sent.additional for rrset in required)
  unfoldable pub lacks : List Rrset → List Rrset → Bool
  unfolding mem_rrset
  lacks [] sent = false
  lacks (r ∷ rs) sent = not (mem_rrset dns r sent) || lacks rs sent

  -- `if required:`
  abbrev pub check_glue : Bytes → List Rrset → Outcome Bytes
  unfolding lacks
  check_glue wire [] = returned wire
  check_glue wire (r ∷ rs) = do
    sent ← or_raise (dns.message_from_wire wire)
    returned (if lacks (r ∷ rs) sent.additional then set_tc wire else wire)

  -- What follows the truncation.
  unfoldable pub keep_glue : Message → Bytes → Outcome Bytes
  unfolding glue_targets required_glue lacks
  keep_glue response wire =
      if length response.answer == 0 && not response.flags.aa
      then (do
        targets ← glue_targets response.authority
        check_glue wire (required_glue targets response.additional))
      else returned wire

  abbrev truncated_response : Message → ℕ → Outcome Bytes
  unfolding keep_glue
  truncated_response response size = do
    wire ← or_raise (dns.to_wire_truncated response size)
    keep_glue response wire

  abbrev written_response : Message → ℕ → Option Bytes → Outcome Bytes
  unfolding keep_glue
  written_response response size (some wire) = returned wire
  written_response response size none = truncated_response response size

  -- _encode_response(response, size)
  unfoldable pub encode_response : Message → ℕ → Outcome Bytes
  unfolding keep_glue
  encode_response response size = written_response response size (dns.to_wire response size)

  -- `make_response`, without RA and AD, and with this server's EDNS.
  unfoldable pub blank_response : Message → Message
  blank_response query =
      let made = dns.make_response query in
      record made {
        flags = record (made.flags) { ra = false; ad = false };
        edns = answered_edns query.edns made.edns;
      }

  abbrev pub answer_key : Question → Message → Option Key → Outcome Message
  answer_key q response none = returned (with_rcode response Rdtype.refused)
  answer_key q response (some (_, nonce)) =
      if not (q.rdclass == Rdtype.class_in || q.rdclass == Rdtype.class_any)
        || (q.rdtype == Rdtype.axfr || q.rdtype == Rdtype.ixfr)
      then returned (with_rcode response Rdtype.refused)
      else answer dns q.rdtype (zone_of nonce) (set_aa response) q.labels

  abbrev pub answer_questions : Message → Message → List Question → Outcome Message
  answer_questions query response (q ∷ []) =
      if above_zero query.edns
      then returned (with_rcode response Rdtype.badvers)
      else answer_key q response (name_key q.labels)
  answer_questions query response _ =
      returned (with_rcode (record response { questions = [] }) Rdtype.formerr)

  -- The response to a parsed query, before it is written.
  unfoldable pub respond : Message → Outcome Message
  unfolding blank_response
  respond query = answer_questions query (blank_response query) query.questions

  abbrev answer_query : Bool → Bytes → Option Message → Outcome Bytes
  unfolding error_response respond encode_response
  answer_query tcp wire none = error_response dns wire Rdtype.formerr
  answer_query tcp wire (some query) = do
    response ← respond query
    encode_response response (response_size tcp query)

  unfoldable pub answer_fresh : Bytes → Bool → Outcome Bytes
  unfolding error_response respond encode_response
  answer_fresh wire tcp =
      if ltb (length wire) 12 || flag wire 0x8000
      then returned []
      else if not (opcode_of wire == 0)
      then error_response dns wire Rdtype.notimp
      else answer_query tcp wire (dns.message_from_wire wire)
