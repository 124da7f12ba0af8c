-- ===== src/Proxy/Fresh/Reply/Isolation.antt =====
-- The responses of `answer_fresh` of fault_proxy/fresh_fixtures.py and the zone of the query's
-- nonce.
use dns_server_lan_fixtures.Prelude.{
  ℕ, ◌≡◌, sym, ap, ◌∙◌, inl, inr, some, [], ◌∷◌, Bytes, Text, All, Bool-cases,
}
use dns_server_lan_fixtures.Outcome.{returned, returned_injective}
use mathlib.Core.Path.{subst}
use dns_server_lan_fixtures.Proxy.Fresh.Dns.{Question, Message, Dnspython, NameLaws, ResponseLaws}
use dns_server_lan_fixtures.Proxy.Fresh.Name.{name_key}
use dns_server_lan_fixtures.Proxy.Fresh.Name.Keys.{name_key-nonce}
use dns_server_lan_fixtures.Proxy.Fresh.Name.Zone.{name_key-InZone}
use dns_server_lan_fixtures.Proxy.Fresh.Answer.Inside.{IsInside, IsFresh, Inside}
use dns_server_lan_fixtures.Proxy.Fresh.Answer.Isolation.{answer-Inside}
use dns_server_lan_fixtures.Proxy.Fresh.Reply.{respond, blank_response, set_aa}
use dns_server_lan_fixtures.Proxy.Fresh.Reply.Respond.{
  served, Served, served-Served, IsRefusal, refusal, respond_refuses,
}

-- A response without records.
empty-Inside :
    (nonce : Bytes) (m : Message)
    → m.answer ≡ []
    → m.authority ≡ []
    → m.additional ≡ []
    → Inside nonce m
empty-Inside nonce m no_answer no_authority no_additional = record {
  answers = subst (All (IsInside nonce)) (sym no_answer) tt;
  starts = subst (All (IsInside nonce)) (sym no_authority) tt;
  addresses = subst (All IsFresh) (sym no_additional) tt;
}

blank-Inside :
    (dns : Dnspython) (laws : ResponseLaws dns) (query : Message) (nonce : Bytes)
    → Inside nonce (set_aa (blank_response dns query))
unfolding blank_response
blank-Inside dns laws query nonce =
    empty-Inside nonce _ (laws.made_answer query) (laws.made_authority query)
      (laws.made_additional query)

refused-Inside :
    (nonce : Bytes) (rcode : ℕ) (m m' : Message)
    → IsRefusal rcode m
    → returned m ≡ returned m'
    → Inside nonce m'
refused-Inside nonce rcode m m' refusal same =
    subst (Inside nonce) (returned_injective same)
      (empty-Inside nonce m refusal.no_answer refusal.no_authority refusal.no_additional)

Served-Inside :
    (dns : Dnspython) (names : NameLaws dns) (responses : ResponseLaws dns) (query m : Message)
    (s : Served dns query)
    → respond dns query ≡ returned m
    → Inside s.nonce m
Served-Inside dns names responses query m s same =
    answer-Inside dns names s.question.rdtype s.nonce
      (name_key-nonce s.question.labels s.key s.nonce s.named) (set_aa (blank_response dns query)) m
      s.question.labels (blank-Inside dns responses query s.nonce)
      (name_key-InZone s.question.labels s.key s.nonce s.named) (sym s.responds ∙ same)

nonce_is :
    (dns : Dnspython) (query : Message) (q : Question) (key nonce : Text) (s : Served dns query)
    → query.questions ≡ q ∷ []
    → name_key q.labels ≡ some (key, nonce)
    → s.nonce ≡ nonce
nonce_is dns query q key nonce s only named =
    let same : s.question ∷ [] ≡ q ∷ [] = sym s.only ∙ only in
    let question : s.question ≡ q = cc in
    let keys : some (s.key, s.nonce) ≡ some (key, nonce) =
      sym s.named ∙ (ap (λ x. name_key x.labels) question ∙ named) in
    cc

-- For every library that keeps the laws of names and of `make_response`: a response to a query with
-- one question, under a nonce, has only answers and authority whose owners are in the zone of that
-- nonce, and additional records whose owners are in the zone of some nonce.
pub respond-Inside :
    (dns : Dnspython) (names : NameLaws dns) (responses : ResponseLaws dns) (query m : Message)
    (q : Question) (key nonce : Text)
    → query.questions ≡ q ∷ []
    → name_key q.labels ≡ some (key, nonce)
    → respond dns query ≡ returned m
    → Inside nonce m
respond-Inside dns names responses query m q key nonce only named same =
    elim (Bool-cases (served query)) [
      | inl asks ↦
          let s = served-Served dns query asks in
          subst (λ n. Inside n m) (nonce_is dns query q key nonce s only named)
            (Served-Inside dns names responses query m s same)
      | inr unserved ↦
          let (m', responds, refused) = respond_refuses dns responses query unserved in
          refused-Inside nonce (refusal query) m' m refused (sym responds ∙ same)
    ]
