-- ===== src/Proxy/Question/RoundTrip.antt =====
-- A query that `build_query` made, read back by the server.
use dns_server_lan_fixtures.Prelude.{
  get_or-append_left, ℕ, ◌+◌, ◌≤◌, ◌<◌, ◌≡◌, refl, ap, ◌∙◌, true, false, List, [], ◌∷◌, ◌++◌, arith,
  Bytes, Text, codes, lower, eq_bytes, rstrip_dots, split_dots, join_dots-split_dots,
  split_dots-cons, u16, u16_at, length, All, length-append, All-append, All-get_or, le→ltb,
}
use dns_server_lan_fixtures.Outcome.{returned}
use dns_server_lan_fixtures.Prelude.Int.{ℤ}
use dns_server_lan_fixtures.Proxy.Query.{is_ascii, query_labels, query_header, build_query}
use dns_server_lan_fixtures.Proxy.Query.Encoding.{wire_name, IsLabel, build_query-Built}
use dns_server_lan_fixtures.Proxy.Name.{display}
use dns_server_lan_fixtures.Proxy.Name.Wire.{IsBytes}
use dns_server_lan_fixtures.Proxy.Question.Encoded.{decode_name-wire_name}
use dns_server_lan_fixtures.Proxy.Question.{
  question_end, parse_question_name, query_scenario, has_no_name,
}
use dns_server_lan_fixtures.Proxy.Scenario.{value, Scenario, scenario_for}

-- The name that a query asks for: lower case, without the dots at the end; "." for the root.
abbrev pub asked_name : Text → Text
asked_name qname = elim (rstrip_dots qname) [ [] ↦ codes "." | c ∷ s ↦ lower (c ∷ s) ]

pub asked_name-display :
    (s : Text)
    → lower (display (query_labels s)) ≡ elim s [ [] ↦ codes "." | c ∷ s' ↦ lower (c ∷ s') ]
unfolding query_labels display
asked_name-display [] = refl
asked_name-display (c ∷ s) =
    let (l, ls, e) = split_dots-cons (c ∷ s) in
    rw (e, display) (ap lower ((rw e at (join_dots-split_dots (c ∷ s)))))

is_ascii-All : (l : Text) → is_ascii l ≡ true → All (λ b. b < 256) l
unfolding is_ascii
is_ascii-All [] h = tt
is_ascii-All (c ∷ l) h = (ground arith, is_ascii-All l (ground arith))

wire_name-All : (ls : List Text) → All IsLabel ls → All (λ b. b < 256) (wire_name ls)
wire_name-All [] v = omega arith
wire_name-All (l ∷ ls) (h, v) = (
  omega arith,
  All-append (λ b. b < 256) l (wire_name ls) (is_ascii-All l h.ascii) (wire_name-All ls v),
)

u16-All : (n : ℕ) → n ≤ 0xFFFF → All (λ b. b < 256) (u16 n)
u16-All n h = omega arith

-- A question behind any header that announces one question.
pub question_end-wire_name :
    (header tail : Bytes) (ls : List Text)
    → length header ≡ 12
    → u16_at header 4 ≡ 1
    → All (λ b. b < 256) header
    → All (λ b. b < 256) tail
    → length tail ≡ 4
    → All IsLabel ls
    → length (wire_name ls) ≤ 255
    → question_end (header ++ (wire_name ls ++ tail))
      ≡ returned (lower (display ls), length (header ++ (wire_name ls ++ tail)))
unfolding question_end
question_end-wire_name header tail ls hl one hb tb tl v short =
    let m : Bytes = header ++ (wire_name ls ++ tail) in
    let name_end = 12 + length (wire_name ls) in
    let size : length m ≡ name_end + 4 =
      omega
        (arith, length-append header (wire_name ls ++ tail), length-append (wire_name ls) tail) in
    let bytes : IsBytes m = λ i.
      All-get_or (λ b. b < 256) m i 0
        (All-append (λ b. b < 256) header (wire_name ls ++ tail) hb
          (All-append (λ b. b < 256) (wire_name ls) tail (wire_name-All ls v) tb))
        (omega arith) in
    let count : u16_at m 4 ≡ 1 = omega (
      arith,
      one,
      get_or-append_left header (wire_name ls ++ tail) 4 0 (omega arith),
      get_or-append_left header (wire_name ls ++ tail) 5 0 (omega arith),
    ) in
    let decoded = rw hl at (decode_name-wire_name m header tail ls refl bytes v short) in
    rw
      (
        le→ltb (length m) 12 (omega arith),
        count,
        decoded,
        le→ltb (length m) (name_end + 4) (omega arith),
        size,
      )
      refl

-- The server reads back the name of a query that `build_query` made, and its question fills the
-- message.
pub question_end-build_query :
    (qname : Text) (qtype transaction_id : ℤ) {w : Bytes}
    → build_query qname qtype transaction_id ≡ returned w
    → question_end w ≡ returned (asked_name qname, length w)
question_end-build_query qname qtype transaction_id h =
    let b = build_query-Built qname qtype transaction_id h in
    rw b.wire_eq (
      question_end-wire_name (query_header b.id) (u16 b.kind ++ u16 1)
        (query_labels (rstrip_dots qname)) refl refl (omega (arith, b.id_range))
        (omega (arith, b.kind_range)) refl b.labels_valid b.name_length
      ∙ rw (asked_name-display (rstrip_dots qname)))

has_no_name-query : (id : ℕ) (rest : Bytes) → has_no_name (query_header id ++ rest) ≡ false
unfolding has_no_name
has_no_name-query id rest = ground arith

-- So it dispatches on that name.
pub query_scenario-build_query :
    (qname : Text) (qtype transaction_id : ℤ) {w : Bytes}
    → build_query qname qtype transaction_id ≡ returned w
    → query_scenario w ≡ returned (scenario_for (asked_name qname))
unfolding query_scenario parse_question_name
query_scenario-build_query qname qtype transaction_id {w} h =
    let b = build_query-Built qname qtype transaction_id h in
    let named : has_no_name w ≡ false = rw b.wire_eq (has_no_name-query b.id _) in
    rw (named, question_end-build_query qname qtype transaction_id h) refl

-- The name that selects a scenario.
abbrev pub fault_name : Scenario → Text
fault_name s = value s ++ codes ".transport.example.test"

scenario_for-fault_name : (s : Scenario) → scenario_for (asked_name (fault_name s)) ≡ s
unfolding scenario_for value rstrip_dots split_dots eq_bytes
scenario_for-fault_name Scenario.normal = refl
scenario_for-fault_name _ = refl

-- A client that asks for a scenario's name, with any type and transaction, selects the scenario.
pub query_scenario-fault_name :
    (s : Scenario) (qtype transaction_id : ℤ) {w : Bytes}
    → build_query (fault_name s) qtype transaction_id ≡ returned w
    → query_scenario w ≡ returned s
query_scenario-fault_name s qtype transaction_id h =
    query_scenario-build_query (fault_name s) qtype transaction_id h
    ∙ ap returned (scenario_for-fault_name s)
