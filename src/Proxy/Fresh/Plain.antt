-- ===== src/Proxy/Fresh/Plain.antt =====
-- A concrete library in the place of dnspython: a message has one question, its name has no
-- pointers, a text of a name has no escapes, and the data of a record is written as its text.
pub mod Laws
use dns_server_lan_fixtures.Prelude.{
  ℕ, zero, suc, ◌+◌, ◌-◌, ◌*◌, ◌/◌, ◌%◌, ◌^◌, ◌≤◌, ◌<◌, min, max, bit_and, bit_or, ◌≡◌, refl, sym,
  ap, ◌∙◌, ◌≡⟨◌⟩◌, ◌∎, ◌≢◌, ◌↔◌, ◌⊎◌, inl, inr, Bool, true, false, not, ◌&&◌, ◌||◌, Option, none,
  some, List, [], ◌∷◌, ◌++◌, map, append-nil, append_assoc, flatten, arith, Bytes, Text, codes,
  to_lower, lower, lower_idem, eq_bytes, eq_bytes_iff, mem_bytes, rstrip_dots, split_dots,
  join_dots, join_dots-split_dots, split_dots-cons, u16, u16_at, u16_parts, length, get_or, take,
  drop, slice, All, length-append, take-append-drop, length-take, length-drop, take_ge, drop_ge,
  take-append, drop-append, take-append_of_length, drop-append_of_length, take-append_left,
  drop-append_left, drop-drop, get_or-append, get_or-drop, length-map, get_or-append_head,
  get_or-append_left, All-append, All-get_or, List-cases, slice-append, take-append_right,
  drop-append_right, and_left, and_right, and_true, ltb, leb, ◌==◌, if◌then◌else◌, ltb→lt, lt→ltb,
  le→ltb, leb→le, le→leb, lt→leb, ==_iff, ==_refl, Bool-cases, Option-cases,
}
use dns_server_lan_fixtures.Outcome.{
  FormatError, Error, Outcome, returned, raised, format, timed_out, eof, network, uncaught, ◌>>=◌,
  ◌>>◌, reject_if, bind-eq-returned, returned_injective, transaction_id_range, query_type_range,
  query_label_ascii, query_label_length, query_name_length, truncated_name, truncated_pointer,
  pointer_out_of_bounds, pointer_loop, label_length_bits, truncated_label, label_ascii,
  excessive_depth, header_truncated, question_count, truncated_question, zero_length_frame,
  payload_length, health_header, health_id, health_not_response, health_not_authoritative,
  upstream_header, upstream_id,
}
use dns_server_lan_fixtures.Proxy.Fresh.Dns.{
  Name, Flags, Question, Rrset, Edns, Message, Dnspython, wire_length,
}

abbrev front_label : Bytes → Option (List Bytes × Bytes) → Option (List Bytes × Bytes)
front_label l none = none
front_label l (some (ls, rest)) = some (l ∷ ls, rest)

-- The labels at the front, and what follows the name.
unfoldable pub plain_labels : ℕ → Bytes → Option (List Bytes × Bytes)
plain_labels zero bytes = none
plain_labels (suc n) [] = none
plain_labels (suc n) (l ∷ bytes) =
    let rest = plain_labels n (drop l bytes) in
    if l == 0
    then some ([] ∷ [], bytes)
    else if ltb (length bytes) l
    then none
    else front_label (take l bytes) rest

abbrev pub name_at : Option (List Bytes × Bytes) → Option (Name × ℕ)
name_at none = none
name_at (some (ls, _)) = if leb (wire_length ls) 255 then some (ls, wire_length ls) else none

abbrev flags_of : ℕ → Flags
flags_of word = record {
  qr = word / 0x8000 % 2 == 1;
  opcode = word / 0x800 % 16;
  aa = word / 0x400 % 2 == 1;
  tc = word / 0x200 % 2 == 1;
  rd = word / 0x100 % 2 == 1;
  ra = word / 0x80 % 2 == 1;
  ad = word / 0x20 % 2 == 1;
  cd = word / 0x10 % 2 == 1;
}

abbrev bit : Bool → ℕ → ℕ
bit false value = 0
bit true value = value

abbrev word_of : Flags → ℕ → ℕ
word_of f rcode =
    bit f.qr 0x8000
    + f.opcode * 0x800
    + bit f.aa 0x400
    + bit f.tc 0x200
    + bit f.rd 0x100
    + bit f.ra 0x80
    + bit f.ad 0x20
    + bit f.cd 0x10
    + rcode

-- An OPT record behind the question gives the version and the payload size.
abbrev edns_of : Bytes → Option Edns
edns_of bytes =
    if eq_bytes (take 3 bytes) (0 ∷ 0 ∷ 41 ∷ [])
    then some (record {
      version = get_or bytes 6 0;
      payload = u16_at bytes 3;
      dnssec_ok = leb 0x80 (get_or bytes 7 0);
    })
    else none

abbrev message_of : Bytes → Option (List Bytes × Bytes) → Option Message
message_of wire none = none
message_of wire (some (ls, rest)) = some (record {
  id = u16_at wire 0;
  flags = flags_of (u16_at wire 2);
  rcode = u16_at wire 2 % 16;
  questions = record { labels = ls; rdtype = u16_at rest 0; rdclass = u16_at rest 2 } ∷ [];
  answer = [];
  authority = [];
  additional = [];
  edns = edns_of (drop 4 rest);
})

abbrev pub not_empty_front : Text → Option Name → Option Name
not_empty_front [] rest = none
not_empty_front (c ∷ l) none = none
not_empty_front (c ∷ l) (some ls) = some ((c ∷ l) ∷ ls)

-- The labels of a text, of which the first has begun.
unfoldable pub labels_onto : Text → Text → Option Name
labels_onto [] [] = some ([] ∷ [])
labels_onto (_ ∷ _) [] = none
labels_onto l (c ∷ s) =
    let rest = labels_onto [] s in
    let longer = labels_onto (l ++ c ∷ []) s in
    if c == b'.' then not_empty_front l rest else if c == b'\\' then none else longer

abbrev pub all_short : Name → Bool
all_short [] = true
all_short (l ∷ ls) = leb (length l) 63 && all_short ls

abbrev pub if_short : Option Name → Option Name
if_short none = none
if_short (some name) = if all_short name && leb (wire_length name) 255 then some name else none

abbrev pub plain_to_text : Name → Text
plain_to_text [] = []
plain_to_text (l ∷ []) = []
plain_to_text (l ∷ next ∷ ls) = l ++ (b'.' ∷ plain_to_text (next ∷ ls))

unfoldable pub eq_names : Name → Name → Bool
unfolding eq_bytes
eq_names [] [] = true
eq_names (a ∷ front) (b ∷ back) = eq_bytes (lower a) (lower b) && eq_names front back
eq_names _ _ = false

unfoldable pub plain_relativize : Name → Name → Name
unfolding eq_names
plain_relativize name origin =
    if eq_names (drop (length name - length origin) name) origin
    then take (length name - length origin) name
    else name

abbrev pub wire_name : Name → Bytes
wire_name [] = []
wire_name (l ∷ ls) = length l ∷ l ++ wire_name ls

abbrev pub wire_questions : List Question → Bytes
wire_questions [] = []
wire_questions (q ∷ qs) = wire_name q.labels ++ u16 q.rdtype ++ u16 q.rdclass ++ wire_questions qs

abbrev wire_items : Rrset → List Text → Bytes
wire_items r [] = []
wire_items r (item ∷ items) =
    wire_name r.owner
    ++ u16 r.rdtype
    ++ u16 1
    ++ u16 0
    ++ u16 r.ttl
    ++ u16 (length item)
    ++ item
    ++ wire_items r items

abbrev wire_rrsets : List Rrset → Bytes
wire_rrsets [] = []
wire_rrsets (r ∷ rs) = wire_items r r.items ++ wire_rrsets rs

abbrev count_items : List Rrset → ℕ
count_items [] = 0
count_items (r ∷ rs) = length r.items + count_items rs

abbrev pub wire_edns : Option Edns → Bytes
wire_edns none = []
wire_edns (some edns) =
    0 ∷ 0 ∷ 41 ∷ u16 edns.payload ++ 0 ∷ edns.version ∷ bit edns.dnssec_ok 0x80 ∷ 0 ∷ 0 ∷ 0 ∷ []

abbrev header_of : Message → ℕ → ℕ → ℕ → Bytes
header_of m answers authority additional =
    u16 m.id
    ++ u16 (word_of m.flags (m.rcode % 16))
    ++ u16 (length m.questions)
    ++ u16 answers
    ++ u16 authority
    ++ u16 additional

abbrev pub wire_of : Message → Bytes
wire_of m =
    header_of m (count_items m.answer) (count_items m.authority) (count_items m.additional)
    ++ wire_questions m.questions
    ++ wire_rrsets m.answer
    ++ wire_rrsets m.authority
    ++ wire_rrsets m.additional
    ++ wire_edns m.edns

abbrev pub short_wire : Message → Bytes
short_wire m = header_of m 0 0 0 ++ wire_questions m.questions ++ wire_edns m.edns

abbrev pub if_fits : ℕ → Bytes → Option Bytes
if_fits size wire = if leb (length wire) size then some wire else none

abbrev pub plain_response : Message → Message
plain_response query = record query {
  flags = record (query.flags) {
    qr = true;
    aa = false;
    tc = false;
    ra = false;
    ad = false;
    cd = false;
  };
  rcode = 0;
  answer = [];
  authority = [];
  additional = [];
}

abbrev pub plain_dns : Dnspython
plain_dns = record {
  name_from_wire = λ message offset. name_at (plain_labels 128 (drop offset message));
  name_from_text = λ text. if_short (labels_onto [] text);
  name_to_text = plain_to_text;
  name_eq = eq_names;
  is_subdomain = λ name origin. eq_names (drop (length name - length origin) name) origin;
  relativize = plain_relativize;
  concatenate = λ a b. if leb (wire_length (a ++ b)) 255 then some (a ++ b) else none;
  message_from_wire = λ message. message_of message (plain_labels 128 (drop 12 message));
  make_response = plain_response;
  to_wire = λ m size. if_fits size (wire_of m);
  to_wire_truncated = λ m size. if_fits size (short_wire m);
}
