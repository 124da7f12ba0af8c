-- ===== src/Proxy/Fresh/Dns.antt =====
-- The data and the calls of dnspython that fault_proxy/fresh_fixtures.py and
-- fault_proxy/fresh_transport.py use. The calls are a parameter; what is documented of them is a
-- record of laws.
use dns_server_lan_fixtures.Prelude.{
  ℕ, suc, ◌+◌, ◌≤◌, ◌≡◌, ◌↔◌, Bool, true, false, ◌&&◌, ◌||◌, Option, some, List, [], ◌∷◌, ◌++◌, map,
  Bytes, Text, lower, length, All, leb, ◌==◌,
}

-- A name is its labels; the last is the root's, with no bytes.
abbrev pub Name : Type 0
Name = List Bytes

-- dns.flags, with the opcode.
pub record Flags : Type 0 where
  pub qr : Bool
  pub opcode : ℕ
  pub aa : Bool
  pub tc : Bool
  pub rd : Bool
  pub ra : Bool
  pub ad : Bool
  pub cd : Bool

pub record Question : Type 0 where
  pub labels : Name
  pub rdtype : ℕ
  pub rdclass : ℕ

-- Records of class IN with one owner, type and TTL; each one's data is in presentation format.
pub record Rrset : Type 0 where
  pub owner : Name
  pub rdtype : ℕ
  pub ttl : ℕ
  pub items : List Text

-- The version of EDNS, the payload size and the bit DO.
pub record Edns : Type 0 where
  pub version : ℕ
  pub payload : ℕ
  pub dnssec_ok : Bool

pub record Message : Type 0 where
  pub id : ℕ
  pub flags : Flags
  pub rcode : ℕ
  pub questions : List Question
  pub answer : List Rrset
  pub authority : List Rrset
  pub additional : List Rrset
  -- `none` where `message.edns < 0`
  pub edns : Option Edns

-- `none` is a `DNSException`.
pub record Dnspython : Type 0 where
  -- dns.name.from_wire(message, offset): the name, and the bytes that it takes there
  pub name_from_wire : Bytes → ℕ → Option (Name × ℕ)
  pub name_from_text : Text → Option Name
  pub name_to_text : Name → Text
  -- a == b
  pub name_eq : Name → Name → Bool
  pub is_subdomain : Name → Name → Bool
  pub relativize : Name → Name → Name
  -- `none` is `NameTooLong`
  pub concatenate : Name → Name → Option Name
  pub message_from_wire : Bytes → Option Message
  pub make_response : Message → Message
  -- response.to_wire(max_size=size); `none` is `TooBig`
  pub to_wire : Message → ℕ → Option Bytes
  -- response.to_wire(max_size=size, prefer_truncation=True)
  pub to_wire_truncated : Message → ℕ → Option Bytes

-- A character that `from_text` takes as it stands.
abbrev pub is_plain_char : ℕ → Bool
is_plain_char c =
    (leb b'a' c && leb c b'z')
    || (leb b'A' c && leb c b'Z')
    || (leb b'0' c && leb c b'9')
    || c == b'-'

abbrev pub all_plain : Text → Bool
all_plain [] = true
all_plain (c ∷ s) = is_plain_char c && all_plain s

abbrev pub IsPlainLabel : Text → Type 0
IsPlainLabel l = (all_plain l ≡ true) × (1 ≤ length l) × (length l ≤ 63)

-- The bytes of a name in a message.
abbrev pub wire_length : Name → ℕ
wire_length [] = 0
wire_length (l ∷ ls) = suc (length l) + wire_length ls

-- "l.l.l."
abbrev pub dotted : List Text → Text
dotted [] = []
dotted (l ∷ ls) = l ++ (b'.' ∷ dotted ls)

-- What is documented of names.
pub record NameLaws (dns : Dnspython) : Type 0 where
  -- A text of plain labels is read as it stands, and written so.
  pub from_text_dotted :
      (ls : List Text)
      → All IsPlainLabel ls
      → 1 ≤ length ls
      → wire_length ls ≤ 254
      → dns.name_from_text (dotted ls) ≡ some (ls ++ [] ∷ [])
  pub to_text_dotted :
      (ls : List Text)
      → All IsPlainLabel ls
      → 1 ≤ length ls
      → dns.name_to_text (ls ++ [] ∷ []) ≡ dotted ls
  -- Letter case does not matter.
  pub name_eq_iff : (a b : Name) → (dns.name_eq a b ≡ true) ↔ (map lower a ≡ map lower b)
  -- What stands before the origin.
  pub relativize_below :
      (front suffix origin : Name)
      → map lower suffix ≡ map lower origin
      → dns.relativize (front ++ suffix) origin ≡ front
  pub concatenate_append : (a b c : Name) → dns.concatenate a b ≡ some c → c ≡ a ++ b

-- What is documented of `make_response`: the query's questions, and nothing else.
pub record ResponseLaws (dns : Dnspython) : Type 0 where
  pub made_questions : (query : Message) → (dns.make_response query).questions ≡ query.questions
  pub made_answer : (query : Message) → (dns.make_response query).answer ≡ []
  pub made_authority : (query : Message) → (dns.make_response query).authority ≡ []
  pub made_additional : (query : Message) → (dns.make_response query).additional ≡ []
  pub made_aa : (query : Message) → (dns.make_response query).flags.aa ≡ false

-- What is documented of `to_wire`: a message is at most `max_size` bytes long, if that is from 512 to
-- 65535; another `max_size` is raised or lowered to one of these, and 0 has a meaning of its own.
pub record SizeLaws (dns : Dnspython) : Type 0 where
  pub to_wire_fits :
      (m : Message) (size : ℕ) (wire : Bytes)
      → 512 ≤ size
      → size ≤ 65535
      → dns.to_wire m size ≡ some wire
      → length wire ≤ size
  pub to_wire_truncated_fits :
      (m : Message) (size : ℕ) (wire : Bytes)
      → 512 ≤ size
      → size ≤ 65535
      → dns.to_wire_truncated m size ≡ some wire
      → length wire ≤ size

-- What is documented of the wire format: a name has at most 255 bytes, and `TooBig` is raised only
-- for a message that is longer than `max_size`, which one without records is not.
pub record WireLaws (dns : Dnspython) : Type 0 where
  pub name_fits :
      (wire : Bytes) (offset : ℕ) (name : Name) (used : ℕ)
      → dns.name_from_wire wire offset ≡ some (name, used)
      → wire_length name ≤ 255
  pub to_wire_small :
      (m : Message)
      → m.answer ≡ []
      → m.authority ≡ []
      → m.additional ≡ []
      → length m.questions ≤ 1
      → All (λ q. wire_length q.labels ≤ 255) m.questions
      → (wire : Bytes) × (dns.to_wire m 65535 ≡ some wire)
