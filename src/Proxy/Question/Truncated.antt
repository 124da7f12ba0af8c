-- ===== src/Proxy/Question/Truncated.antt =====
-- The truncated response that moves a client to TCP.
use dns_server_lan_fixtures.Prelude.{
  u16_parts, ap, sym, ◌∙◌, take_ge, ◌≤◌, not, ◌&&◌, leb, ℕ, ◌+◌, ◌*◌, ◌/◌, ◌%◌, ◌≡◌, refl, ◌⊎◌, inl,
  inr, false, ◌++◌, arith, Bytes, Text, rstrip_dots, u16, u16_at, length, drop, slice, ◌==◌,
}
use dns_server_lan_fixtures.Outcome.{Outcome, returned}
use dns_server_lan_fixtures.Prelude.Int.{ℤ, pos}
use dns_server_lan_fixtures.Prelude.Masks.{mask_rd}
use dns_server_lan_fixtures.Proxy.Query.{build_query, query_labels, query_header}
use dns_server_lan_fixtures.Proxy.Query.Encoding.{wire_name, build_query-Built}
use dns_server_lan_fixtures.Proxy.Question.{
  question_end, response_header, response_flags, make_truncated_response,
}
use dns_server_lan_fixtures.Proxy.Question.RoundTrip.{
  asked_name-display, asked_name, question_end-wire_name, question_end-build_query,
}

-- QR, AA and TC, and RD as the query has it.
pub response_flags_lem : (flags : ℕ) → response_flags flags ≡ 0x8600 + 0x100 * (flags / 0x100 % 2)
unfolding response_flags
response_flags_lem flags = elim (cases (flags / 0x100)) [
  | inl off ↦ rw (mask_rd, off) refl
  | inr set ↦ rw (mask_rd, set) refl
]
  where
    cases : (n : ℕ) → (n % 2 ≡ 0) ⊎ (n % 2 ≡ 1)
    cases n = omega arith

-- The response: the query's identifier, one question, no records, and the query's own question.
pub record IsTruncation (query response : Bytes) (end : ℕ) : Type 0 where
  pub id_kept : u16_at response 0 ≡ u16_at query 0
  pub flags_set : u16_at response 2 ≡ 0x8600 + 0x100 * (u16_at query 2 / 0x100 % 2)
  pub one_question : u16_at response 4 ≡ 1
  pub no_records : (u16_at response 6 ≡ 0) × (u16_at response 8 ≡ 0) × (u16_at response 10 ≡ 0)
  pub same_question : drop 12 response ≡ slice query 12 end

make_truncated_response-eq :
    (dnspython : Bytes → Outcome Bytes) (query : Bytes)
    → u16_at query 10 ≡ 0
    → {name : Text} {end : ℕ} → question_end query ≡ returned (name, end)
    → make_truncated_response dnspython query
      ≡ returned
          (response_header (u16_at query 0) (response_flags (u16_at query 2)) ++ slice query 12 end)
unfolding make_truncated_response
make_truncated_response-eq dnspython query plain h =
    let direct : (leb 12 (length query) && not (u16_at query 10 == 0)) ≡ false = ground arith in
    rw (direct, h) refl

-- With no additional records and a question that can be read, this response is made.
pub make_truncated_response-IsTruncation :
    (dnspython : Bytes → Outcome Bytes) (query : Bytes)
    → u16_at query 10 ≡ 0
    → {name : Text} {end : ℕ} → question_end query ≡ returned (name, end)
    → (r : Bytes) × (make_truncated_response dnspython query ≡ returned r)
      × IsTruncation query r end
make_truncated_response-IsTruncation dnspython query plain {name} {end} h = (
  response_header (u16_at query 0) (response_flags (u16_at query 2)) ++ slice query 12 end,
  make_truncated_response-eq dnspython query plain h,
  record {
    id_kept = omega arith;
    flags_set = omega (arith, response_flags_lem (u16_at query 2));
    one_question = refl;
    no_records = omega arith;
    same_question = refl;
  },
)

plain_query : (id : ℕ) (rest : Bytes) → u16_at (query_header id ++ rest) 10 ≡ 0
plain_query id rest = refl

drop-query_header :
    (id : ℕ) (rest : Bytes)
    → slice (query_header id ++ rest) 12 (length (query_header id ++ rest)) ≡ rest
drop-query_header id rest = take_ge _ rest (omega arith)

response_flags-bytes : (flags : ℕ) → response_flags flags ≤ 0xFFFF
response_flags-bytes flags = omega (arith, response_flags_lem flags)

built_response :
    (id : ℕ) (rest : Bytes)
    → response_header
          (u16_at (query_header id ++ rest) 0)
          (response_flags (u16_at (query_header id ++ rest) 2))
        ++ slice (query_header id ++ rest) 12 (length (query_header id ++ rest))
      ≡ response_header id 0x8700 ++ rest
unfolding response_flags
built_response id rest = rw (u16_parts id, drop-query_header id rest) refl

-- The query's question, and nothing else behind the header.
pub record OnlyQuestionOf (query response : Bytes) : Type 0 where
  pub one : u16_at response 4 ≡ 1
  pub none_else : (u16_at response 6 ≡ 0) × (u16_at response 8 ≡ 0) × (u16_at response 10 ≡ 0)
  pub question : drop 12 response ≡ drop 12 query

built_question :
    (id : ℕ) (rest : Bytes)
    → OnlyQuestionOf (query_header id ++ rest) (response_header id 0x8700 ++ rest)
built_question id rest = record { one = refl; none_else = omega arith; question = refl }

-- The client can read the response to a query of `build_query`: the same name, with the end at
-- the end of the message, the query's bytes from the question on, one question, no records, and the
-- same transaction.
pub make_truncated_response-build_query :
    (dnspython : Bytes → Outcome Bytes) (qname : Text) (qtype transaction_id : ℤ) {w : Bytes}
    → build_query qname qtype transaction_id ≡ returned w
    → (r : Bytes) × (make_truncated_response dnspython w ≡ returned r)
      × (question_end r ≡ returned (asked_name qname, length r))
      × (pos (u16_at r 0) ≡ transaction_id)
      × (u16_at r 2 ≡ 0x8700)
      × OnlyQuestionOf w r
make_truncated_response-build_query dnspython qname qtype transaction_id {w} h =
    let b = build_query-Built qname qtype transaction_id h in
    let rest : Bytes = wire_name (query_labels (rstrip_dots qname)) ++ (u16 b.kind ++ u16 1) in
    let parsed = question_end-build_query qname qtype transaction_id h in
    let made =
      make_truncated_response-eq dnspython w (rw b.wire_eq (plain_query b.id rest)) parsed in
    let read =
      question_end-wire_name (response_header b.id 0x8700) (u16 b.kind ++ u16 1)
        (query_labels (rstrip_dots qname)) refl refl (omega (arith, b.id_range))
        (omega (arith, b.kind_range)) refl b.labels_valid b.name_length in
    (
      response_header b.id 0x8700 ++ rest,
      made ∙ ap returned (rw b.wire_eq (built_response b.id rest)),
      read ∙ rw (asked_name-display (rstrip_dots qname)),
      ap pos (u16_parts b.id) ∙ sym b.id_eq,
      refl,
      rw b.wire_eq (built_question b.id rest),
    )
