-- ===== src/Proxy/Fresh/Reply/Respond.antt =====
-- Which queries `answer_fresh` of fault_proxy/fresh_fixtures.py answers with data.
use dns_server_lan_fixtures.Prelude.{
  not_true, ℕ, suc, ◌≡◌, refl, sym, ap, ◌∙◌, inl, inr, Bool, true, false, not, ◌&&◌, ◌||◌, Option,
  none, some, List, [], ◌∷◌, arith, Text, length, and_left, and_right, ◌==◌, if◌then◌else◌,
  Bool-cases, Option-cases,
}
use dns_server_lan_fixtures.Outcome.{Outcome, returned}
use dns_server_lan_fixtures.Proxy.Fresh.Dns.{Question, Message, Dnspython, ResponseLaws}
use dns_server_lan_fixtures.Proxy.Fresh.Name.{Key, name_key, zone_of}
use dns_server_lan_fixtures.Proxy.Fresh.Rdtype
use dns_server_lan_fixtures.Proxy.Fresh.Answer.{answer}
use dns_server_lan_fixtures.Proxy.Fresh.Reply.{
  above_zero, respond, blank_response, set_aa, answer_key, answer_questions,
}

abbrev pub is_key : Option Key → Bool
is_key none = false
is_key (some key) = true

-- Question of class IN or ANY, under a nonce, and not for a transfer.
abbrev pub asks_for_data : Question → Bool
asks_for_data q =
    is_key (name_key q.labels)
    && ((q.rdclass == Rdtype.class_in || q.rdclass == Rdtype.class_any)
        && not (q.rdtype == Rdtype.axfr || q.rdtype == Rdtype.ixfr))

abbrev pub all_ask : List Question → Bool
all_ask [] = true
all_ask (q ∷ qs) = asks_for_data q && all_ask qs

-- One such question, and the version 0 of EDNS, if any.
abbrev pub served : Message → Bool
served query =
    length query.questions == 1 && (not (above_zero query.edns) && all_ask query.questions)

-- The code for a query that is not served.
abbrev pub refusal : Message → ℕ
refusal query =
    if not (length query.questions == 1)
    then Rdtype.formerr
    else if above_zero query.edns
    then Rdtype.badvers
    else Rdtype.refused

-- A response with a code and no data.
pub record IsRefusal (rcode : ℕ) (m : Message) : Type 0 where
  pub code : m.rcode ≡ rcode
  pub no_answer : m.answer ≡ []
  pub no_authority : m.authority ≡ []
  pub no_additional : m.additional ≡ []
  pub not_aa : m.flags.aa ≡ false

abbrev Refuses : ℕ → Outcome Message → Type 0
Refuses rcode o = (m : Message) × (o ≡ returned m) × IsRefusal rcode m

-- A query that is served, taken apart.
pub record Served (dns : Dnspython) (query : Message) : Type 0 where
  pub question : Question
  pub key : Text
  pub nonce : Text
  pub only : query.questions ≡ question ∷ []
  pub named : name_key question.labels ≡ some (key, nonce)
  pub responds :
      respond dns query
      ≡ answer dns question.rdtype
          (zone_of nonce)
          (set_aa (blank_response dns query))
          question.labels

not_both : (a b : Bool) → (a && not b) ≡ false → (not a || b) ≡ true
not_both false b neither = refl
not_both true true neither = refl
not_both true false neither = cc

only_one : (b : Bool) → (b && true) ≡ false → b ≡ false
only_one true unserved = unserved
only_one false unserved = refl

more_than_one : (n : ℕ) → (suc (suc n) == 1) ≡ false
more_than_one n = ground arith

not-false : (b : Bool) → not b ≡ true → b ≡ false
not-false false h = refl
not-false true h = sym h

unserved_key :
    (q : Question) (key : Key)
    → name_key q.labels ≡ some key
    → asks_for_data q ≡ false
    → ((q.rdclass == Rdtype.class_in || q.rdclass == Rdtype.class_any)
        && not (q.rdtype == Rdtype.axfr || q.rdtype == Rdtype.ixfr))
      ≡ false
unserved_key q key found unserved = rw found at unserved

module _ (dns : Dnspython) (laws : ResponseLaws dns) (query : Message) where
  blank-IsRefusal :
      (rcode : ℕ) (qs : List Question)
      → IsRefusal rcode (record (blank_response dns query) { rcode = rcode; questions = qs })
  unfolding blank_response
  blank-IsRefusal rcode qs = record {
    code = refl;
    no_answer = laws.made_answer query;
    no_authority = laws.made_authority query;
    no_additional = laws.made_additional query;
    not_aa = laws.made_aa query;
  }

  answer_key-Refuses :
      (q : Question)
      → asks_for_data q ≡ false
      → Refuses Rdtype.refused (answer_key dns q (blank_response dns query) (name_key q.labels))
  answer_key-Refuses q unserved = elim (Option-cases (name_key q.labels)) [
    | inl no_key ↦ rw no_key (_, refl, blank-IsRefusal Rdtype.refused _)
    | inr ((key, nonce), found) ↦
        let test = not_both _ _ (unserved_key q (key, nonce) found unserved) in
        rw (found, test) (_, refl, blank-IsRefusal Rdtype.refused _)
  ]

  answer_questions-Refuses :
      (qs : List Question)
      → (length qs == 1 && (not (above_zero query.edns) && all_ask qs)) ≡ false
      → Refuses
          (if not (length qs == 1)
            then Rdtype.formerr
            else if above_zero query.edns
            then Rdtype.badvers
            else Rdtype.refused)
          (answer_questions dns query (blank_response dns query) qs)
  answer_questions-Refuses [] unserved = (_, refl, blank-IsRefusal Rdtype.formerr [])
  answer_questions-Refuses (q ∷ []) unserved = elim (Bool-cases (above_zero query.edns)) [
    | inl version ↦ rw version (_, refl, blank-IsRefusal Rdtype.badvers _)
    | inr version ↦ rw version (answer_key-Refuses q (only_one _ (rw version at unserved)))
  ]
  answer_questions-Refuses (q ∷ p ∷ qs) unserved =
      rw (more_than_one (length qs)) (_, refl, blank-IsRefusal Rdtype.formerr [])

-- For every library that keeps the law of `make_response`, a query that does not ask for data, by
-- its questions or by its version of EDNS, gets a response with the code for its fault, without
-- records and without AA.
pub respond_refuses :
    (dns : Dnspython) (laws : ResponseLaws dns) (query : Message)
    → served query ≡ false
    → (m : Message) × (respond dns query ≡ returned m) × IsRefusal (refusal query) m
unfolding respond
respond_refuses dns laws query unserved =
    answer_questions-Refuses dns laws query query.questions unserved

served_key : (q : Question) → asks_for_data q ≡ true → (key : Key) × (name_key q.labels ≡ some key)
served_key q asks = elim (Option-cases (name_key q.labels)) [
  | inl no_key ↦ absurd (not_true (rw no_key at asks))
  | inr found ↦ found
]

both_not : (a b : Bool) → (a && not b) ≡ true → (not a || b) ≡ false
both_not true false both = refl
both_not true true both = cc
both_not false b both = cc

answers_one :
    (dns : Dnspython) (query : Message) (q : Question) (key nonce : Text)
    → above_zero query.edns ≡ false
    → name_key q.labels ≡ some (key, nonce)
    → (not (q.rdclass == Rdtype.class_in || q.rdclass == Rdtype.class_any)
        || (q.rdtype == Rdtype.axfr || q.rdtype == Rdtype.ixfr))
      ≡ false
    → answer_questions dns query (blank_response dns query) (q ∷ [])
      ≡ answer dns q.rdtype (zone_of nonce) (set_aa (blank_response dns query)) q.labels
answers_one dns query q key nonce version found plain = rw (version, found, plain) refl

answer_questions-Served :
    (dns : Dnspython) (query : Message) (qs : List Question)
    → query.questions ≡ qs
    → (length qs == 1 && (not (above_zero query.edns) && all_ask qs)) ≡ true
    → Served dns query
unfolding respond
answer_questions-Served dns query [] same asks = absurd (not_true asks)
answer_questions-Served dns query (q ∷ p ∷ qs) same asks =
    absurd (not_true (rw (more_than_one (length qs)) at asks))
answer_questions-Served dns query (q ∷ []) same asks =
    let no_version = not (above_zero query.edns) in
    let version = not-false (above_zero query.edns) (and_left no_version _ asks) in
    let asked : asks_for_data q ≡ true =
      and_left (asks_for_data q) true (and_right no_version _ asks) in
    let ((key, nonce), found) = served_key q asked in
    record {
      question = q;
      key = key;
      nonce = nonce;
      only = same;
      named = found;
      responds =
          ap (answer_questions dns query (blank_response dns query)) same
          ∙ answers_one dns query q key nonce version found
              (both_not _ _ (and_right (is_key (name_key q.labels)) _ asked));
    }

-- The answer to a query that is served.
pub served-Served : (dns : Dnspython) (query : Message) → served query ≡ true → Served dns query
served-Served dns query asks = answer_questions-Served dns query query.questions refl asks
