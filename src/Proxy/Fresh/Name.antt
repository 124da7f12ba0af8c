-- ===== src/Proxy/Fresh/Name.antt =====
-- `SUFFIX`, `_name_key` and `fresh_key` of fault_proxy/fresh_fixtures.py and `is_fresh` of
-- fault_proxy/fresh_transport.py, with the calls of dnspython that they make as a parameter.
pub mod Keys
pub mod Zone
use dns_server_lan_fixtures.Prelude.{
  ℕ, Bool, true, false, ◌&&◌, ◌||◌, Option, none, some, List, [], ◌∷◌, ◌++◌, Bytes, Text, codes,
  lower, eq_bytes, u16_at, length, ltb, leb, ◌==◌, if◌then◌else◌,
}
use dns_server_lan_fixtures.Proxy.Fresh.Dns.{Name, Question, Message, Dnspython}
use dns_server_lan_fixtures.Proxy.Query.{is_ascii}

abbrev pub reverse_onto {ℓ} : {A : Type ℓ} → List A → List A → List A
reverse_onto [] acc = acc
reverse_onto (x ∷ xs) acc = reverse_onto xs (x ∷ acc)

-- tuple(x.lower() for x in labels[-4:]) == SUFFIX, on the reversed labels
unfoldable pub has_suffix : List Bytes → Bool
unfolding eq_bytes
has_suffix (root ∷ test ∷ example ∷ fresh ∷ _) =
    eq_bytes (lower root) []
    && eq_bytes (lower test) (codes "test")
    && eq_bytes (lower example) (codes "example")
    && eq_bytes (lower fresh) (codes "fresh")
has_suffix _ = false

unfoldable pub is_hex : ℕ → Bool
is_hex c = (leb b'0' c && leb c b'9') || (leb b'a' c && leb c b'f')

unfoldable pub all_hex : Bytes → Bool
unfolding is_hex
all_hex [] = true
all_hex (c ∷ cs) = is_hex c && all_hex cs

-- re.fullmatch(b"[0-9a-f]{32}", nonce)
unfoldable pub is_nonce : Bytes → Bool
unfolding all_hex
is_nonce nonce = length nonce == 32 && all_hex nonce

-- key, nonce
abbrev pub Key : Type 0
Key = Text × Text

-- The labels before the nonce, from the last.
abbrev pub key_before : Bytes → List Bytes → Option Key
key_before nonce [] = some (codes "apex", nonce)
key_before nonce (key ∷ _) = if is_ascii key then some (lower key, nonce) else none

abbrev pub key_of_reversed : List Bytes → Option Key
key_of_reversed (root ∷ test ∷ example ∷ fresh ∷ nonce ∷ rest) =
    if has_suffix (root ∷ test ∷ example ∷ fresh ∷ []) && is_nonce (lower nonce)
    then key_before (lower nonce) rest
    else none
key_of_reversed _ = none

unfoldable pub name_key : List Bytes → Option Key
unfolding is_ascii has_suffix is_nonce
name_key labels = key_of_reversed (reverse_onto labels [])

abbrev key_of_questions : List Question → Option Key
key_of_questions [] = none
key_of_questions (q ∷ _) = name_key q.labels

-- fresh_key(query_wire), from the parsed message
unfoldable pub fresh_key : Message → Option Key
unfolding name_key
fresh_key message = key_of_questions message.questions

-- `zone` of `answer_fresh`
abbrev pub zone_of : Text → Text
zone_of nonce = nonce ++ codes ".fresh.example.test."

suffix_of_name : Option (Name × ℕ) → Bool
unfolding has_suffix
suffix_of_name none = false
suffix_of_name (some (labels, _)) = has_suffix (reverse_onto labels [])

unfoldable pub is_fresh : Dnspython → Bytes → Bool
unfolding suffix_of_name
is_fresh dns query =
    if ltb (length query) 12 || u16_at query 4 == 0
    then false
    else suffix_of_name (dns.name_from_wire query 12)
