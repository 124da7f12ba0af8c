-- ===== src/Proxy/Fresh/Reply/Uncaught.antt =====
-- A label that makes `answer_fresh` of fault_proxy/fresh_fixtures.py raise a `DNSException`, and what
-- becomes of it in the UDP handler of fault_proxy/dns_fault_proxy.py.
use dns_server_lan_fixtures.Prelude.{
  ℕ, ◌≤◌, ◌≡◌, refl, sym, ap, ◌∙◌, inl, inr, Bool, true, false, not, ◌&&◌, Option, none, some, [],
  ◌∷◌, Bytes, Text, codes, eq_bytes, mem_bytes, length, if◌then◌else◌, le→ltb,
}
use dns_server_lan_fixtures.Outcome.{Error, Outcome, returned, raised, uncaught, ◌>>=◌}
use dns_server_lan_fixtures.Proxy.Fresh.Dns.{Question, Name, Message, Dnspython}
use dns_server_lan_fixtures.Proxy.Fresh.Name.{name_key, zone_of}
use dns_server_lan_fixtures.Proxy.Fresh.Records.{Owner, or_raise, owner_name, soa, target, is}
use dns_server_lan_fixtures.Proxy.Fresh.Answer.{
  answer_round, answer_rounds, answer, key_round, authority_owner, authority_soa, owner_text,
}
use dns_server_lan_fixtures.Proxy.Fresh.Reply.{
  answer_query, answer_fresh, respond, opcode_of, flag, set_aa, blank_response,
}
use dns_server_lan_fixtures.Proxy.Fresh.Reply.Respond.{served, Served, served-Served}

-- `DNSException` is the only exception that an outcome may be.
record Raises {A : Type 0} (o : Outcome A) : Type 0 where
  only : (e : Error) → o ≡ raised e → e ≡ uncaught

bind-raised :
    {A B : Type 0} (o : Outcome A) (rest : A → Outcome B)
    → Raises o
    → ((x : A) → rest x ≡ raised uncaught)
    → (o >>= rest) ≡ raised uncaught
bind-raised (raised e) rest h all = ap raised (h.only e refl)
bind-raised (returned x) rest h all = all x

bind-Raises :
    {A B : Type 0} (o : Outcome A) (rest : A → Outcome B)
    → Raises o
    → ((x : A) → Raises (rest x))
    → Raises (o >>= rest)
bind-Raises (raised e) rest h all = record { only = λ f same. cc (h.only e refl) }
bind-Raises (returned x) rest h all = all x

returned-Raises : {A : Type 0} (x : A) → Raises (returned x)
returned-Raises x = record { only = λ e same. cc }

if-Raises :
    {A : Type 0} (b : Bool) (x y : Outcome A) → Raises x → Raises y → Raises (if b then x else y)
if-Raises true x y hx hy = hx
if-Raises false x y hx hy = hy

or_raise-Raises : {A : Type 0} (o : Option A) → Raises (or_raise o)
or_raise-Raises none = record { only = λ e same. cc }
or_raise-Raises (some x) = returned-Raises x

owner_name-Raises : (dns : Dnspython) (owner : Owner) → Raises (owner_name dns owner)
owner_name-Raises dns (inl text) = or_raise-Raises (dns.name_from_text text)
owner_name-Raises dns (inr name) = returned-Raises name

soa-Raises :
    (dns : Dnspython) (zone : Text) (owner : Owner) (primary : Text)
    → Raises (soa dns zone owner primary)
soa-Raises dns zone owner primary =
    bind-Raises (owner_name dns owner) _ (owner_name-Raises dns owner) (λ name. returned-Raises _)

module _ (dns : Dnspython) (kind : ℕ) (zone : Text) where
  authority_soa-Raises :
      (key : Text) (owner : Owner) → Raises (authority_soa dns kind zone key owner)
  authority_soa-Raises key owner =
      if-Raises
        (is key (codes "additional-ns") && not (eq_bytes (owner_text dns kind zone owner) zone)) _ _
        (soa-Raises dns (owner_text dns kind zone owner) (inl (owner_text dns kind zone owner))
          (target zone (codes "additional-ns-host")))
        (soa-Raises dns zone owner (target zone (codes "ns")))

  authority_owner-Raises :
      (owner : Name) (key : Text) → Raises (authority_owner dns kind zone owner key)
  authority_owner-Raises owner key =
      if-Raises (mem_bytes key (codes "ns" ∷ codes "soa" ∷ codes "additional-ns" ∷ [])) _ _
        (bind-Raises (or_raise (dns.name_from_text (target zone key))) _ (or_raise-Raises _)
          (λ child. returned-Raises _))
        (returned-Raises _)

  -- A key whose name is no name.
  answer_round-raised :
      (m : Message) (owner : Name) (key : Text) (nonce : Bytes)
      → name_key owner ≡ some (key, nonce)
      → dns.name_from_text (target zone key) ≡ none
      → answer_round dns kind zone m owner ≡ raised uncaught
  unfolding answer_round key_round
  answer_round-raised m owner key nonce found fails = rw found (
      bind-raised (authority_owner dns kind zone owner key) _ (authority_owner-Raises owner key)
        (λ holder.
          bind-raised (authority_soa dns kind zone key holder) _ (authority_soa-Raises key holder)
            (λ start. rw fails refl)))

respond-raised :
    (dns : Dnspython) (query : Message) (s : Served dns query)
    → dns.name_from_text (target (zone_of s.nonce) s.key) ≡ none
    → respond dns query ≡ raised uncaught
unfolding answer answer_rounds
respond-raised dns query s fails =
    let round =
      answer_round-raised dns s.question.rdtype (zone_of s.nonce)
        (set_aa (blank_response dns query)) s.question.labels s.key s.nonce s.named fails in
    s.responds ∙ (rw round refl)

-- The key of a query that is served.
key_of :
    (dns : Dnspython) (query : Message) (q : Question) (key nonce : Text) (s : Served dns query)
    → query.questions ≡ q ∷ []
    → name_key q.labels ≡ some (key, nonce)
    → target (zone_of nonce) key ≡ target (zone_of s.nonce) s.key
key_of dns query q key nonce s only named =
    let same : q ∷ [] ≡ s.question ∷ [] = sym only ∙ s.only in
    let question : q ≡ s.question = cc in
    let keys : some (key, nonce) ≡ some (s.key, s.nonce) =
      sym named ∙ (ap (λ x. name_key x.labels) question ∙ s.named) in
    let first : key ≡ s.key = cc in let second : nonce ≡ s.nonce = cc in rw (first, second) refl

-- A query for data whose key stands in a text that dnspython does not take for a name, such as a key
-- with an empty label before a dot: `answer_fresh` raises an exception, over UDP and TCP.
pub answer_fresh_raised :
    (dns : Dnspython) (wire : Bytes) (tcp : Bool) (query : Message) (q : Question)
    (key nonce : Text)
    → 12 ≤ length wire
    → flag wire 0x8000 ≡ false
    → opcode_of wire ≡ 0
    → dns.message_from_wire wire ≡ some query
    → served query ≡ true
    → query.questions ≡ q ∷ []
    → name_key q.labels ≡ some (key, nonce)
    → dns.name_from_text (target (zone_of nonce) key) ≡ none
    → answer_fresh dns wire tcp ≡ raised uncaught
unfolding answer_fresh answer_query
answer_fresh_raised dns wire tcp query q key nonce long not_response is_query parsed asks only named
      fails =
    let s = served-Served dns query asks in
    let same = key_of dns query q key nonce s only named in
    rw (le→ltb (length wire) 12 long, not_response, is_query, parsed)
      (rw (respond-raised dns query s (rw same at fails)) refl)
