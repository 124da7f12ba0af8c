-- ===== src/Probe/Query/Agree.antt =====
-- The probe's `build_query` and the proxy's make the same queries.
use dns_server_lan_fixtures.Prelude.{
  arith, ◌≤◌, ℕ, ◌≡◌, refl, ◌⊎◌, inl, inr, Option, none, some, List, [], ◌∷◌, ◌++◌, Bytes, Text,
  rstrip_dots,
}
use dns_server_lan_fixtures.Outcome
use dns_server_lan_fixtures.Outcome.{Outcome, returned, raised}
use dns_server_lan_fixtures.Prelude.Int.{ℤ, pos, negsuc}
use dns_server_lan_fixtures.Proxy.Query
use dns_server_lan_fixtures.Proxy.Query.{query_labels}
use dns_server_lan_fixtures.Probe.Query.{
  QueryError, encode_label, asked_labels, encode_labels, type_number, build_query, ◌>>=◌,
}

-- What a call returns, if it does not raise.
abbrev pub value_of : {A : Type 0} → QueryError ⊎ A → Option A
value_of (inl e) = none
value_of (inr a) = some a

abbrev pub outcome_value : {A : Type 0} → Outcome A → Option A
outcome_value (returned a) = some a
outcome_value (raised e) = none

encode_label-agree : (l : Text) → value_of (encode_label l) ≡ outcome_value (Query.encode_label l)
unfolding encode_label Query.encode_label
encode_label-agree l = ground arith

after_label :
    (acc : Bytes) (ls : List Text) (p : QueryError ⊎ Bytes) (q : Outcome Bytes)
    → value_of p ≡ outcome_value q
    → ((b : Bytes)
        → value_of (encode_labels (acc ++ b) ls)
          ≡ outcome_value (Query.encode_labels (acc ++ b) ls))
    → value_of (p >>= λ b. encode_labels (acc ++ b) ls)
      ≡ outcome_value (Outcome.◌>>=◌ q (λ b. Query.encode_labels (acc ++ b) ls))
after_label acc ls (inl e) (returned b) h next = cc
after_label acc ls (inl e) (raised e') h next = refl
after_label acc ls (inr a) (raised e) h next = cc
after_label acc ls (inr a) (returned b) h next = let same : a ≡ b = cc h in rw same (next b)

encode_labels-agree :
    (acc : Bytes) (ls : List Text)
    → value_of (encode_labels acc ls) ≡ outcome_value (Query.encode_labels acc ls)
unfolding encode_labels Query.encode_labels
encode_labels-agree acc [] = refl
encode_labels-agree acc (l ∷ ls) =
    after_label acc ls (encode_label l) (Query.encode_label l) (encode_label-agree l)
      (λ b. encode_labels-agree (acc ++ b) ls)

type_number-le : (qtype : Text) {k : ℕ} → type_number qtype ≡ inr k → k ≤ 0xFFFF
unfolding type_number
type_number-le qtype h = ground arith

asked_labels-agree : (name : Text) → asked_labels name ≡ query_labels name
unfolding asked_labels query_labels
asked_labels-agree [] = refl
asked_labels-agree (c ∷ s) = refl

names-agree :
    (name : Text)
    → value_of (encode_labels [] (asked_labels (rstrip_dots name)))
      ≡ outcome_value (Query.encode_labels [] (query_labels (rstrip_dots name)))
names-agree name =
    rw (asked_labels-agree (rstrip_dots name))
      (encode_labels-agree [] (query_labels (rstrip_dots name)))

-- For a type that the probe knows by its number, the two functions return the same query, or both
-- raise; whatever the name and the identifier, also one below 0.
pub build_query-agree :
    (name qtype : Text) (id : ℤ) (kind : ℕ)
    → type_number qtype ≡ inr kind
    → value_of (build_query name qtype id) ≡ outcome_value (Query.build_query name (pos kind) id)
unfolding build_query Query.build_query
build_query-agree name qtype (pos id) kind h =
    ground (arith, names-agree name, type_number-le qtype h)
build_query-agree name qtype (negsuc id) kind h =
    ground (arith, names-agree name, type_number-le qtype h)
