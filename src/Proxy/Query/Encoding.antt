-- ===== src/Proxy/Query/Encoding.antt =====
-- What `build_query` writes, as a function of the labels.
use dns_server_lan_fixtures.Prelude.{
  le→leb, le→ltb, ltb, ℕ, ◌≤◌, ◌≡◌, refl, ◌∙◌, true, List, [], ◌∷◌, ◌++◌, append_assoc, arith,
  Bytes, Text, rstrip_dots, u16, length, All,
}
use dns_server_lan_fixtures.Outcome.{
  returned, reject_if, query_name_length, transaction_id_range, query_type_range, ◌>>◌, FormatError,
  bind-eq-returned,
}
use dns_server_lan_fixtures.Prelude.Int.{ℤ, pos, negsuc}
use dns_server_lan_fixtures.Proxy.Query.{
  u16_argument, is_ascii, encode_label, encode_labels, query_labels, query_header, build_query,
}

-- The labels with their length bytes, and the root label.
abbrev pub wire_name : List Text → Bytes
wire_name [] = 0 ∷ []
wire_name (l ∷ ls) = length l ∷ (l ++ wire_name ls)

pub record IsLabel (l : Text) : Type 0 where
  pub nonempty : 1 ≤ length l
  pub short : length l ≤ 63
  pub ascii : is_ascii l ≡ true

encode_label-eq :
    (l : Text) {b : Bytes} → encode_label l ≡ returned b → IsLabel l × (b ≡ length l ∷ l)
unfolding encode_label
encode_label-eq l h =
    (record { nonempty = ground arith; short = ground arith; ascii = ground arith }, ground arith)

encode_label_of : (l : Text) → IsLabel l → encode_label l ≡ returned (length l ∷ l)
unfolding encode_label
encode_label_of l h = ground arith

pub encode_labels-eq :
    (acc : Bytes) (ls : List Text) {w : Bytes}
    → encode_labels acc ls ≡ returned w
    → All IsLabel ls × (w ≡ acc ++ wire_name ls)
unfolding encode_labels
encode_labels-eq acc [] h = (tt, ground arith)
encode_labels-eq acc (l ∷ ls) h =
    let (b, e, rest) = bind-eq-returned (encode_label l) (λ b. encode_labels (acc ++ b) ls) h in
    let (v, be) = encode_label-eq l e in
    let (vs, we) = encode_labels-eq (acc ++ b) ls rest in ((v, vs), we ∙ rw be (rw append_assoc))

pub encode_labels_of :
    (acc : Bytes) (ls : List Text)
    → All IsLabel ls
    → encode_labels acc ls ≡ returned (acc ++ wire_name ls)
unfolding encode_labels
encode_labels_of acc [] v = refl
encode_labels_of acc (l ∷ ls) (v, vs) =
    rw (encode_label_of l v) (encode_labels_of (acc ++ length l ∷ l) ls vs ∙ rw append_assoc)

-- The parts of a query that was built.
pub record Built (qname : Text) (qtype transaction_id : ℤ) (w : Bytes) : Type 0 where
  pub id : ℕ
  pub kind : ℕ
  pub id_eq : transaction_id ≡ pos id
  pub kind_eq : qtype ≡ pos kind
  pub id_range : id ≤ 0xFFFF
  pub kind_range : kind ≤ 0xFFFF
  pub labels_valid : All IsLabel (query_labels (rstrip_dots qname))
  pub name_length : length (wire_name (query_labels (rstrip_dots qname))) ≤ 255
  pub wire_eq :
      w ≡ query_header id ++ (wire_name (query_labels (rstrip_dots qname)) ++ (u16 kind ++ u16 1))

u16_argument-eq :
    (n : ℤ) (e : FormatError) {k : ℕ} → u16_argument n e ≡ returned k → (n ≡ pos k) × (k ≤ 0xFFFF)
unfolding u16_argument
u16_argument-eq (pos n) e h = (ground arith, ground arith)
u16_argument-eq (negsuc n) e h = absurd (ground arith)

name_fits :
    (name : Bytes) (id kind : ℕ) {w : Bytes}
    → (do
      reject_if (ltb 255 (length name)) query_name_length
      returned (query_header id ++ (name ++ (u16 kind ++ u16 1))))
      ≡ returned w
    → (length name ≤ 255) × (w ≡ query_header id ++ (name ++ (u16 kind ++ u16 1)))
name_fits name id kind h = (ground arith, ground arith)

-- `build_query` returns only queries of this form.
pub build_query-Built :
    (qname : Text) (qtype transaction_id : ℤ) {w : Bytes}
    → build_query qname qtype transaction_id ≡ returned w
    → Built qname qtype transaction_id w
unfolding build_query
build_query-Built qname qtype transaction_id h =
    let (id, ide, h₁) = bind-eq-returned (u16_argument transaction_id transaction_id_range) _ h in
    let (kind, ke, h₂) = bind-eq-returned (u16_argument qtype query_type_range) _ h₁ in
    let (name, ne, h₃) =
      bind-eq-returned (encode_labels [] (query_labels (rstrip_dots qname))) _ h₂ in
    let (i, ir) = u16_argument-eq transaction_id transaction_id_range ide in
    let (k, kr) = u16_argument-eq qtype query_type_range ke in
    let (valid, we) = encode_labels-eq [] (query_labels (rstrip_dots qname)) ne in
    record {
      id = id;
      kind = kind;
      id_eq = i;
      kind_eq = k;
      id_range = ir;
      kind_range = kr;
      labels_valid = valid;
      name_length = rw we at (name_fits name id kind h₃).0;
      wire_eq = rw we at (name_fits name id kind h₃).1;
    }

-- And every argument in range has a query.
pub build_query_of :
    (qname : Text) (kind id : ℕ)
    → id ≤ 0xFFFF
    → kind ≤ 0xFFFF
    → All IsLabel (query_labels (rstrip_dots qname))
    → length (wire_name (query_labels (rstrip_dots qname))) ≤ 255
    → build_query qname (pos kind) (pos id)
      ≡ returned
          (query_header id ++ (wire_name (query_labels (rstrip_dots qname)) ++ (u16 kind ++ u16 1)))
unfolding build_query
build_query_of qname kind id hi hk v short =
    rw (le→leb id 0xFFFF hi, le→leb kind 0xFFFF hk, encode_labels_of [] _ v, le→ltb 255 _ short)
      refl
