-- ===== src/Proxy/Fresh/Name/Keys.antt =====
-- What the laws of names give for the names of fault_proxy/fresh_fixtures.py.
use dns_server_lan_fixtures.Prelude.{
  ℕ, ◌≡◌, refl, true, some, List, [], ◌∷◌, ◌++◌, arith, Bytes, Text, codes, to_lower, lower,
  eq_bytes, length, and_left, and_right, and_true, ==_iff,
}
use dns_server_lan_fixtures.Proxy.Query.{is_ascii}
use dns_server_lan_fixtures.Proxy.Fresh.Dns.{
  Name, Dnspython, NameLaws, is_plain_char, all_plain, IsPlainLabel,
}
use dns_server_lan_fixtures.Proxy.Fresh.Name.{
  has_suffix, reverse_onto, name_key, key_of_reversed, zone_of, is_nonce, is_hex, all_hex,
}
use dns_server_lan_fixtures.Proxy.Fresh.Records.{target}

-- The labels of f"{label}.{nonce}.fresh.example.test."
abbrev pub fresh_name : Text → Text → Name
fresh_name label nonce = label ∷ nonce ∷ codes "fresh" ∷ codes "example" ∷ codes "test" ∷ [] ∷ []

reverse_onto-append {ℓ} :
    {A : Type ℓ} (xs ys acc : List A)
    → reverse_onto (xs ++ ys) acc ≡ reverse_onto ys (reverse_onto xs acc)
reverse_onto-append [] ys acc = refl
reverse_onto-append (x ∷ xs) ys acc = reverse_onto-append xs ys (x ∷ acc)

is_hex-plain : (c : ℕ) → is_hex c ≡ true → (is_plain_char c ≡ true) × (to_lower c ≡ c)
unfolding is_hex
is_hex-plain c hex = ground arith

all_hex-plain : (s : Bytes) → all_hex s ≡ true → (all_plain s ≡ true) × (lower s ≡ s)
unfolding all_hex
all_hex-plain [] hex = (refl, refl)
all_hex-plain (c ∷ s) hex =
    let (plain, same) = is_hex-plain c (and_left _ _ hex) in
    let rest = all_hex-plain s (and_right _ _ hex) in
    let sames : lower s ≡ s = rest.1 in (and_true _ _ plain rest.0, cc)

-- A nonce is a plain label, and it is in lower case.
pub nonce-plain :
    (nonce : Bytes) → is_nonce nonce ≡ true → IsPlainLabel nonce × (lower nonce ≡ nonce)
unfolding is_nonce
nonce-plain nonce valid =
    let hex = all_hex-plain nonce (and_right _ _ valid) in
    let long : length nonce ≡ 32 = (==_iff (length nonce) 32).0 (and_left _ _ valid) in
    ((hex.0, omega arith, omega arith), hex.1)

pub nonce_length : (nonce : Bytes) → is_nonce nonce ≡ true → length nonce ≡ 32
unfolding is_nonce
nonce_length nonce valid = (==_iff (length nonce) 32).0 (and_left _ _ valid)

-- A name that the fixtures build.
pub target_parsed :
    (dns : Dnspython) (laws : NameLaws dns) (label nonce : Text)
    → IsPlainLabel label
    → is_nonce nonce ≡ true
    → dns.name_from_text (target (zone_of nonce) label) ≡ some (fresh_name label nonce)
unfolding is_nonce
target_parsed dns laws label nonce plain valid =
    let valid_nonce = (nonce-plain nonce valid).0 in
    let size = nonce_length nonce valid in
    laws.from_text_dotted (label ∷ nonce ∷ codes "fresh" ∷ codes "example" ∷ codes "test" ∷ [])
      (
        plain,
        (
          valid_nonce,
          (
            (refl, omega arith, omega arith),
            ((refl, omega arith, omega arith), ((refl, omega arith, omega arith), tt)),
          ),
        ),
      )
      (omega arith) (omega arith)

-- The key of a name that a query can bear, with the labels before it.
pub name_key-fresh_name :
    (front : List Bytes) (label nonce : Text)
    → is_ascii label ≡ true
    → is_nonce nonce ≡ true
    → name_key (front ++ fresh_name label nonce) ≡ some (lower label, nonce)
unfolding name_key has_suffix eq_bytes
name_key-fresh_name front label nonce ascii valid =
    let (plain, same) = nonce-plain nonce valid in
    let reversed = reverse_onto-append front (fresh_name label nonce) [] in
    rw (reversed, same, valid, ascii) refl

key_of_reversed-nonce :
    (reversed : List Bytes) (key : Text) (nonce : Bytes)
    → key_of_reversed reversed ≡ some (key, nonce)
    → is_nonce nonce ≡ true
key_of_reversed-nonce (root ∷ test ∷ example ∷ fresh ∷ label ∷ []) key nonce same = ground arith
key_of_reversed-nonce (root ∷ test ∷ example ∷ fresh ∷ label ∷ first ∷ rest) key nonce same =
    ground arith
key_of_reversed-nonce (root ∷ test ∷ example ∷ fresh ∷ []) key nonce same = cc
key_of_reversed-nonce (root ∷ test ∷ example ∷ []) key nonce same = cc
key_of_reversed-nonce (root ∷ test ∷ []) key nonce same = cc
key_of_reversed-nonce (root ∷ []) key nonce same = cc
key_of_reversed-nonce [] key nonce same = cc

-- What is found as a nonce is one.
pub name_key-nonce :
    (labels : List Bytes) (key : Text) (nonce : Bytes)
    → name_key labels ≡ some (key, nonce)
    → is_nonce nonce ≡ true
unfolding name_key
name_key-nonce labels key nonce same = key_of_reversed-nonce (reverse_onto labels []) key nonce same
