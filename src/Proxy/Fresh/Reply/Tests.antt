-- ===== src/Proxy/Fresh/Reply/Tests.antt =====
-- The answers to queries at concrete inputs.
use dns_server_lan_fixtures.Prelude.{
  ℕ, zero, suc, ◌≤◌, ◌≡◌, refl, true, false, Option, none, some, List, [], ◌∷◌, ◌++◌, map, arith,
  Bytes, Text, codes, eq_bytes, length, take, inr,
}
use dns_server_lan_fixtures.Outcome.{Outcome, returned, raised}
use dns_server_lan_fixtures.Proxy.Fresh.Answer.Inside.{Inside}
use dns_server_lan_fixtures.Proxy.Fresh.Reply.Isolation.{respond-Inside}
use dns_server_lan_fixtures.Proxy.Fresh.Reply.{
  answer_fresh, error_response, respond, encode_response,
}
use dns_server_lan_fixtures.Proxy.Fresh.Reply.Malformed.{IsErrorReply, answer_fresh_malformed}
use dns_server_lan_fixtures.Proxy.Fresh.Reply.Size.{answer_fresh_fits}
use dns_server_lan_fixtures.Proxy.Fresh.Plain.Laws.{
  plain-SizeLaws, plain-ResponseLaws, plain-NameLaws, plain-WireLaws,
}
use dns_server_lan_fixtures.Proxy.Fresh.Reply.Respond.{served, IsRefusal, refusal, respond_refuses}
use dns_server_lan_fixtures.Proxy.Fresh.Reply.Servers.{ns}
use dns_server_lan_fixtures.Proxy.Fresh.Dns.{Question, Edns, Name, Message}
use dns_server_lan_fixtures.Proxy.Fresh.Name.{
  name_key, has_suffix, is_nonce, all_hex, is_hex, zone_of,
}
use dns_server_lan_fixtures.Proxy.Fresh.Plain.{
  short_wire, plain_labels, plain_dns, labels_onto, eq_names,
}
use dns_server_lan_fixtures.Proxy.Fresh.Tests.{fresh_query, nonce}
use dns_server_lan_fixtures.Proxy.Query.{is_ascii}
use dns_server_lan_fixtures.Proxy.Fresh.Rdtype
use dns_server_lan_fixtures.Proxy.Fresh.Name.Keys.{fresh_name}
use dns_server_lan_fixtures.Proxy.Fresh.Answer.{answer, answer_rounds}
use dns_server_lan_fixtures.Proxy.Fresh.Answer.Chains.{Answered}
use dns_server_lan_fixtures.Proxy.Fresh.Answer.Rounds.{answer-Answered}

-- A response without records.
abbrev blank : Message
blank = record {
  id = 7;
  flags = record {
    qr = true;
    opcode = 0;
    aa = true;
    tc = false;
    rd = true;
    ra = false;
    ad = false;
    cd = false;
  };
  rcode = 0;
  questions = [];
  answer = [];
  authority = [];
  additional = [];
  edns = none;
}

nonce_valid : is_nonce nonce ≡ true
unfolding is_nonce all_hex is_hex
nonce_valid = refl

abbrev types : Outcome Message → List ℕ
types (raised e) = []
types (returned m) = map (λ r. r.rdtype) m.answer

-- A chain of two aliases, and the address.
chain_types :
    types (answer plain_dns Rdtype.a (zone_of nonce) blank (fresh_name (codes "cname-chain") nonce))
    ≡ Rdtype.cname ∷ Rdtype.cname ∷ Rdtype.a ∷ []
unfolding answer answer_rounds labels_onto eq_names
chain_types = refl

answer-Answered_example :
    Answered plain_dns Rdtype.a
      (zone_of nonce)
      blank
      (fresh_name (codes "cname-chain") nonce)
      (answer plain_dns Rdtype.a (zone_of nonce) blank (fresh_name (codes "cname-chain") nonce))
answer-Answered_example =
    answer-Answered plain_dns plain-NameLaws Rdtype.a nonce nonce_valid blank
      (fresh_name (codes "cname-chain") nonce)

-- A question for the type A of a name.
abbrev asking : Name → ℕ → Question
asking labels rdclass = record { labels = labels; rdtype = Rdtype.a; rdclass = rdclass }

abbrev query_of : List Question → Option Edns → Message
query_of qs edns = record blank { questions = qs; edns = edns }

-- A question of the class CH.
abbrev other_class : Message
other_class = query_of (asking (fresh_name (codes "a") nonce) 3 ∷ []) none

other_class_unserved : served other_class ≡ false
unfolding name_key has_suffix is_nonce all_hex is_hex is_ascii eq_bytes
other_class_unserved = refl

respond_refuses_example :
    (m : Message) × (respond plain_dns other_class ≡ returned m) × IsRefusal (refusal other_class) m
respond_refuses_example =
    respond_refuses plain_dns plain-ResponseLaws other_class other_class_unserved

-- The name of a cut, and of its server.
abbrev cut_name : Name
cut_name = fresh_name (codes "referral") nonce

abbrev server_name : Name
server_name = codes "ns" ∷ cut_name

abbrev server_text : Text
server_text = codes "ns.referral." ++ zone_of nonce

abbrev addresses : ℕ → List Text
addresses zero = []
addresses (suc n) = codes "192.0.2.53" ∷ addresses n

abbrev referral : Message
referral = record blank {
  flags = record (blank.flags) { aa = false };
  questions = asking cut_name 1 ∷ [];
  authority =
      record { owner = cut_name; rdtype = Rdtype.ns; ttl = 0; items = server_text ∷ [] } ∷ [];
  additional =
      record { owner = server_name; rdtype = Rdtype.a; ttl = 0; items = addresses 10 } ∷ [];
}

-- What is left of it in 512 bytes.
abbrev cut_wire : Bytes
cut_wire = short_wire referral

abbrev cut_message : Message
cut_message = record referral { authority = []; additional = [] }

abbrev a_query : Bytes
a_query = fresh_query (codes "a")

abbrev a_message : Message
a_message = record (query_of (asking (fresh_name (codes "a") nonce) 1 ∷ []) none) {
  flags = record (blank.flags) { qr = false; aa = false };
}

a_parsed : plain_dns.message_from_wire a_query ≡ some a_message
unfolding plain_labels eq_bytes
a_parsed = refl

abbrev bytes_of : Outcome Bytes → Bytes
bytes_of (raised e) = []
bytes_of (returned bytes) = bytes

abbrev a_reply : Bytes
a_reply = bytes_of (answer_fresh plain_dns a_query false)

a_answered : answer_fresh plain_dns a_query false ≡ returned a_reply
unfolding answer_fresh answer answer_rounds plain_labels labels_onto eq_names error_response
    encode_response
a_answered = refl

answer_fresh_fits_example : length a_reply ≤ 512
answer_fresh_fits_example =
    answer_fresh_fits plain_dns plain-SizeLaws a_query false a_message a_parsed refl a_reply
      a_answered

abbrev chain_question : Question
chain_question = asking (fresh_name (codes "cname-chain") nonce) 1

abbrev chain_query : Message
chain_query = query_of (chain_question ∷ []) none

abbrev message_of : Outcome Message → Message
message_of (raised e) = blank
message_of (returned m) = m

abbrev chain_response : Message
chain_response = message_of (respond plain_dns chain_query)

chain_responds : respond plain_dns chain_query ≡ returned chain_response
unfolding respond answer answer_rounds labels_onto eq_names
chain_responds = refl

chain_key : name_key chain_question.labels ≡ some (codes "cname-chain", nonce)
unfolding name_key has_suffix is_nonce all_hex is_hex is_ascii eq_bytes
chain_key = refl

respond-Inside_example : Inside nonce chain_response
respond-Inside_example =
    respond-Inside plain_dns plain-NameLaws plain-ResponseLaws chain_query chain_response
      chain_question (codes "cname-chain") nonce refl chain_key chain_responds

-- A query of which the name is cut.
abbrev cut_query : Bytes
cut_query = take 20 a_query

not_parsed : plain_dns.message_from_wire cut_query ≡ none
unfolding plain_labels
not_parsed = refl

answer_fresh_malformed_example :
    (reply : Bytes) × (m : Message) × (answer_fresh plain_dns cut_query true ≡ returned reply)
    × (plain_dns.to_wire m 65535 ≡ some reply)
    × IsErrorReply cut_query m
answer_fresh_malformed_example =
    answer_fresh_malformed plain_dns plain-WireLaws cut_query true (omega arith) refl
      (inr not_parsed)
