-- ===== src/Proxy/Fresh/Reply/Malformed.antt =====
-- What `answer_fresh` of fault_proxy/fresh_fixtures.py makes of messages that it does not parse.
use dns_server_lan_fixtures.Prelude.{
  ◌/◌, ◌%◌, ◌≢◌, sym, not_true, ℕ, zero, suc, ◌+◌, ◌≤◌, ◌≡◌, refl, ap, ◌∙◌, ◌⊎◌, inl, inr, Bool,
  true, false, not, ◌&&◌, none, some, List, [], ◌∷◌, ◌++◌, arith, Bytes, u16_at, length, All,
  All-append, and_left, ltb, ◌==◌, if◌then◌else◌, le→ltb, ==_iff, Bool-cases, Option-cases, if_both,
}
use dns_server_lan_fixtures.Outcome.{returned}
use dns_server_lan_fixtures.Proxy.Fresh.Dns.{
  Name, Question, Message, Dnspython, WireLaws, wire_length,
}
use dns_server_lan_fixtures.Proxy.Fresh.Rdtype
use dns_server_lan_fixtures.Proxy.Fresh.Reply.{
  Scan, scan_questions, scan_records, error_message, error_response, answer_query, answer_fresh,
  opcode_of, flag,
}

abbrev AllFit : List Question → Type 0
AllFit qs = All (λ q. wire_length q.labels ≤ 255) qs

abbrev kept : Bool → Question → List Question → List Question
kept keep q found = if keep then found ++ q ∷ [] else found

kept-AllFit :
    (keep : Bool) (q : Question) (found : List Question)
    → wire_length q.labels ≤ 255
    → AllFit found
    → AllFit (kept keep q found)
kept-AllFit true q found short fit =
    All-append (λ q. wire_length q.labels ≤ 255) found (q ∷ []) fit (short, _)
kept-AllFit false q found short fit = fit

if_not : {A : Type 0} (b : Bool) (x y : A) → b ≡ true → (if not b then x else y) ≡ y
if_not b x y holds = rw holds refl

-- The question that stands behind a name.
abbrev read_question : Bytes → ℕ → Name → Question
read_question wire behind name = record {
  labels = name;
  rdtype = u16_at wire behind;
  rdclass = u16_at wire (behind + 2);
}

-- The error reply to a message.
pub record IsErrorReply (wire : Bytes) (m : Message) : Type 0 where
  pub id_kept : m.id ≡ u16_at wire 0
  pub is_response : m.flags.qr ≡ true
  pub opcode_kept : m.flags.opcode ≡ u16_at wire 2 / 0x800 % 16
  pub not_aa : m.flags.aa ≡ false
  pub code : ((opcode_of wire ≡ 0) × (m.rcode ≡ 1)) ⊎ ((opcode_of wire ≢ 0) × (m.rcode ≡ 4))
  pub few_questions : length m.questions ≤ 1
  pub no_answer : m.answer ≡ []
  pub no_authority : m.authority ≡ []
  pub no_additional : m.additional ≡ []

module _ (dns : Dnspython) (laws : WireLaws dns) (wire : Bytes) where
  scan_questions-AllFit :
      (keep : Bool) (n offset : ℕ) (found : List Question)
      → AllFit found
      → AllFit (scan_questions dns wire keep n offset found).0
  unfolding scan_questions
  scan_questions-AllFit keep zero offset found fit = fit
  scan_questions-AllFit keep (suc n) offset found fit =
      elim (Option-cases (dns.name_from_wire wire offset)) [
        | inl fails ↦ rw (scan_questions, fails) fit
        | inr ((name, used), read) ↦
            rw (scan_questions, read)
              (if_both {A = List Question × Scan} (λ r. AllFit (r.0))
                (ltb (length wire) (offset + used + 4)) _ _ fit
                (scan_questions-AllFit keep n (offset + used + 4)
                  (kept keep (read_question wire (offset + used) name) found)
                  (kept-AllFit keep (read_question wire (offset + used) name) found
                    (laws.name_fits wire offset name used read) fit)))
      ]

  scan_questions-dropped :
      (n offset : ℕ) (found : List Question)
      → (scan_questions dns wire false n offset found).0 ≡ found
  unfolding scan_questions
  scan_questions-dropped zero offset found = refl
  scan_questions-dropped (suc n) offset found =
      elim (Option-cases (dns.name_from_wire wire offset)) [
        | inl fails ↦ rw (scan_questions, fails) refl
        | inr ((name, used), read) ↦
            rw (scan_questions, read)
              (if_both {A = List Question × Scan} (λ r. r.0 ≡ found)
                (ltb (length wire) (offset + used + 4)) _ _ refl
                (scan_questions-dropped n (offset + used + 4) found))
      ]

  scan_questions-one : (offset : ℕ) → length ((scan_questions dns wire true 1 offset []).0) ≤ 1
  unfolding scan_questions
  scan_questions-one offset = elim (Option-cases (dns.name_from_wire wire offset)) [
    | inl fails ↦ rw (scan_questions, fails) (omega arith)
    | inr ((name, used), read) ↦
        rw (scan_questions, read)
          (if_both {A = List Question × Scan} (λ r. length (r.0) ≤ 1)
            (ltb (length wire) (offset + used + 4)) _ _ (omega arith) (omega arith))
  ]

  -- `keep` says that there is one question.
  scan_questions-few :
      (keep : Bool) (n : ℕ)
      → (keep ≡ true → n ≡ 1)
      → length ((scan_questions dns wire keep n 12 []).0) ≤ 1
  scan_questions-few true n one = rw (one refl) (scan_questions-one 12)
  scan_questions-few false n one = rw (scan_questions-dropped n 12 []) (omega arith)

  error_message_few : (rcode : ℕ) → length ((error_message dns wire rcode).questions) ≤ 1
  unfolding error_message scan_questions scan_records
  error_message_few rcode =
      scan_questions-few (u16_at wire 4 == 1 && opcode_of wire == 0) (u16_at wire 4)
        (λ keeps. (==_iff (u16_at wire 4) 1).0 (and_left _ _ keeps))

  error_response_returned :
      (rcode : ℕ)
      → 12 ≤ length wire
      → (reply : Bytes) × (dns.to_wire (error_message dns wire rcode) 65535 ≡ some reply)
        × (error_response dns wire rcode ≡ returned reply)
  unfolding error_response error_message scan_questions scan_records
  error_response_returned rcode whole =
      let (reply, written) =
        laws.to_wire_small (error_message dns wire rcode) refl refl refl (error_message_few rcode)
          (scan_questions-AllFit _ _ 12 [] _) in
      (reply, written, rw (le→ltb (length wire) 12 whole) (rw written refl))

  abbrev error_code : ℕ
  error_code = if opcode_of wire == 0 then Rdtype.formerr else Rdtype.notimp

  error_code-cases :
      ((opcode_of wire ≡ 0) × (error_code ≡ 1)) ⊎ ((opcode_of wire ≢ 0) × (error_code ≡ 4))
  error_code-cases = elim (Bool-cases (opcode_of wire == 0)) [
    | inl query ↦ inl ((==_iff (opcode_of wire) 0).0 query, rw query refl)
    | inr other ↦
        inr ((λ same. not_true (sym other ∙ (==_iff (opcode_of wire) 0).1 same)), rw other refl)
  ]

  replied_other :
      (tcp : Bool)
      → 12 ≤ length wire
      → flag wire 0x8000 ≡ false
      → (opcode_of wire == 0) ≡ false
      → answer_fresh dns wire tcp ≡ error_response dns wire error_code
  unfolding answer_fresh answer_query
  replied_other tcp whole asks other = rw (le→ltb (length wire) 12 whole, asks, other) refl

  replied_unparsed :
      (tcp : Bool)
      → 12 ≤ length wire
      → flag wire 0x8000 ≡ false
      → dns.message_from_wire wire ≡ none
      → answer_fresh dns wire tcp ≡ error_response dns wire error_code
  unfolding answer_fresh answer_query
  replied_unparsed tcp whole asks fails = elim (Bool-cases (opcode_of wire == 0)) [
    | inl query ↦
        let code : Rdtype.formerr ≡ error_code = rw query refl in
        rw (asks, fails, le→ltb (length wire) 12 whole) (if_not (opcode_of wire == 0) _ _ query)
        ∙ ap (error_response dns wire) code
    | inr other ↦ replied_other tcp whole asks other
  ]

  error_message-IsErrorReply : IsErrorReply wire (error_message dns wire error_code)
  unfolding error_message scan_questions scan_records
  error_message-IsErrorReply = record {
    id_kept = refl;
    is_response = refl;
    opcode_kept = refl;
    not_aa = refl;
    code = error_code-cases;
    few_questions = error_message_few error_code;
    no_answer = refl;
    no_authority = refl;
    no_additional = refl;
  }

  -- A message of at least 12 bytes that is not a response, and has another opcode or is not parsed,
  -- is answered over UDP and TCP, never with an exception: the reply is what `to_wire` writes for a
  -- response without AA that has the request's id and opcode, the rcode NOTIMP (4) for another opcode
  -- and FORMERR (1) for QUERY, at most one question, and no records.
  pub answer_fresh_malformed :
      (tcp : Bool)
      → 12 ≤ length wire
      → flag wire 0x8000 ≡ false
      → ((opcode_of wire == 0) ≡ false) ⊎ (dns.message_from_wire wire ≡ none)
      → (reply : Bytes) × (m : Message) × (answer_fresh dns wire tcp ≡ returned reply)
        × (dns.to_wire m 65535 ≡ some reply)
        × IsErrorReply wire m
  answer_fresh_malformed tcp whole asks bad =
      let replied : answer_fresh dns wire tcp ≡ error_response dns wire error_code = elim bad [
        | inl other ↦ replied_other tcp whole asks other
        | inr fails ↦ replied_unparsed tcp whole asks fails
      ] in
      let (reply, written, returns) = error_response_returned error_code whole in
      (
        reply,
        error_message dns wire error_code,
        replied ∙ returns,
        written,
        error_message-IsErrorReply,
      )
