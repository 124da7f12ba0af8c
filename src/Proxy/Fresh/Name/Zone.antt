-- ===== src/Proxy/Fresh/Name/Zone.antt =====
-- Names under f"{nonce}.fresh.example.test." in fault_proxy/fresh_fixtures.py.
use dns_server_lan_fixtures.Prelude.{
  ℕ, ◌≤◌, ◌≡◌, refl, sym, ap, ◌∙◌, Bool, true, false, ◌&&◌, Option, none, some, List, [], ◌∷◌, ◌++◌,
  map, append-nil, append_assoc, arith, Bytes, Text, codes, to_lower, lower, eq_bytes_iff, length,
  All, length-map, and_left, and_right, and_true, if◌then◌else◌,
}
use dns_server_lan_fixtures.Proxy.Query.{is_ascii}
use dns_server_lan_fixtures.Proxy.Fresh.Dns.{
  Name, Dnspython, NameLaws, is_plain_char, all_plain, IsPlainLabel, wire_length,
}
use dns_server_lan_fixtures.Proxy.Fresh.Name.{
  reverse_onto, name_key, key_before, key_of_reversed, zone_of, is_nonce, has_suffix,
}
use dns_server_lan_fixtures.Proxy.Fresh.Name.Keys.{fresh_name, nonce-plain, nonce_length}

abbrev pub zone_labels : Bytes → Name
zone_labels nonce = nonce ∷ codes "fresh" ∷ codes "example" ∷ codes "test" ∷ [] ∷ []

-- A name that ends in the zone of a nonce, in any letter case.
pub record InZone (nonce : Bytes) (name : Name) : Type 0 where
  pub front : List Bytes
  pub same : map lower name ≡ front ++ zone_labels nonce

lower-append : (xs ys : Name) → map lower (xs ++ ys) ≡ map lower xs ++ map lower ys
lower-append [] ys = refl
lower-append (x ∷ xs) ys = ap (◌∷◌ (lower x)) (lower-append xs ys)

pub fresh_name-InZone :
    (front : List Bytes) (label nonce : Text)
    → is_nonce nonce ≡ true
    → InZone nonce (front ++ fresh_name label nonce)
fresh_name-InZone front label nonce valid = record {
  front = map lower front ++ lower label ∷ [];
  same =
      rw (lower-append front (fresh_name label nonce), (nonce-plain nonce valid).1)
        (sym (append_assoc (map lower front) (lower label ∷ []) (zone_labels nonce)));
}

reverse_twice :
    (xs ys zs : List Bytes) → reverse_onto (reverse_onto xs ys) zs ≡ reverse_onto ys (xs ++ zs)
reverse_twice [] ys zs = refl
reverse_twice (x ∷ xs) ys zs = reverse_twice xs (x ∷ ys) zs

reverse_onto_acc : (xs acc : List Bytes) → reverse_onto xs acc ≡ reverse_onto xs [] ++ acc
reverse_onto_acc [] acc = refl
reverse_onto_acc (x ∷ xs) acc =
    reverse_onto_acc xs (x ∷ acc)
    ∙ (sym (append_assoc (reverse_onto xs []) (x ∷ []) acc)
        ∙ ap (λ l. l ++ acc) (sym (reverse_onto_acc xs (x ∷ []))))

if_some :
    {A : Type 0} (b : Bool) (x : Option A) (y : A)
    → (if b then x else none) ≡ some y
    → (b ≡ true) × (x ≡ some y)
if_some true x y same = (refl, same)
if_some false x y same = cc

key_before-nonce :
    (label : Bytes) (rest : List Bytes) (key : Text) (nonce : Bytes)
    → key_before label rest ≡ some (key, nonce)
    → label ≡ nonce
key_before-nonce label [] key nonce same = cc
key_before-nonce label (first ∷ rest) key nonce same =
    let found = (if_some (is_ascii first) (some (lower first, label)) (key, nonce) same).1 in
    let e : some (lower first, label) ≡ some (key, nonce) = found in cc

all_four :
    (a b c d : Bool) → (a && b && c && d) ≡ true → (a ≡ true) × (b ≡ true) × (c ≡ true) × (d ≡ true)
all_four true true true true h = (refl, refl, refl, refl)
all_four true true true false h = cc
all_four true true false d h = cc
all_four true false c d h = cc
all_four false b c d h = cc

-- The labels behind the nonce.
suffix_labels :
    (root test example fresh : Bytes)
    → has_suffix (root ∷ test ∷ example ∷ fresh ∷ []) ≡ true
    → (lower root ≡ [])
      × (lower test ≡ codes "test")
      × (lower example ≡ codes "example")
      × (lower fresh ≡ codes "fresh")
unfolding has_suffix
suffix_labels root test example fresh holds =
    let (a, b, c, d) = all_four _ _ _ _ holds in
    (
      (eq_bytes_iff (lower root) []).0 a,
      (eq_bytes_iff (lower test) _).0 b,
      (eq_bytes_iff (lower example) _).0 c,
      (eq_bytes_iff (lower fresh) _).0 d,
    )

-- The reversed labels of a name with a key.
key_of_reversed-suffix :
    (reversed : List Bytes) (key : Text) (nonce : Bytes)
    → key_of_reversed reversed ≡ some (key, nonce)
    → (front : List Bytes) × (map lower (reverse_onto reversed []) ≡ front ++ zone_labels nonce)
key_of_reversed-suffix [] key nonce same = absurd cc
key_of_reversed-suffix (root ∷ []) key nonce same = absurd cc
key_of_reversed-suffix (root ∷ test ∷ []) key nonce same = absurd cc
key_of_reversed-suffix (root ∷ test ∷ example ∷ []) key nonce same = absurd cc
key_of_reversed-suffix (root ∷ test ∷ example ∷ fresh ∷ []) key nonce same = absurd cc
key_of_reversed-suffix (root ∷ test ∷ example ∷ fresh ∷ label ∷ rest) key nonce same =
    let (tests, found) =
      if_some (has_suffix (root ∷ test ∷ example ∷ fresh ∷ []) && is_nonce (lower label))
        (key_before (lower label) rest) (key, nonce) same in
    let (r, t, e, f) = suffix_labels root test example fresh (and_left _ _ tests) in
    let n = key_before-nonce (lower label) rest key nonce found in
    (
      map lower (reverse_onto rest []),
      rw
          (
            reverse_onto_acc rest (label ∷ fresh ∷ example ∷ test ∷ root ∷ []),
            lower-append (reverse_onto rest []) (label ∷ fresh ∷ example ∷ test ∷ root ∷ []),
            r,
            t,
            e,
            f,
            n,
          )
          refl,
    )

pub name_key-InZone :
    (labels : Name) (key : Text) (nonce : Bytes)
    → name_key labels ≡ some (key, nonce)
    → InZone nonce labels
unfolding name_key
name_key-InZone labels key nonce same =
    let (front, suffix) = key_of_reversed-suffix (reverse_onto labels []) key nonce same in
    record { front = front; same = rw (reverse_twice labels [] [], append-nil labels) at suffix }

-- The labels behind the nonce are plain.
plain_suffix : All IsPlainLabel (codes "fresh" ∷ codes "example" ∷ codes "test" ∷ [])
plain_suffix = (
  (refl, omega arith, omega arith),
  ((refl, omega arith, omega arith), ((refl, omega arith, omega arith), tt)),
)

-- What the zone's text stands for.
pub zone_of-parsed :
    (dns : Dnspython) (laws : NameLaws dns) (nonce : Bytes)
    → is_nonce nonce ≡ true
    → dns.name_from_text (zone_of nonce) ≡ some (zone_labels nonce)
zone_of-parsed dns laws nonce valid =
    let size = nonce_length nonce valid in
    laws.from_text_dotted (nonce ∷ codes "fresh" ∷ codes "example" ∷ codes "test" ∷ [])
      ((nonce-plain nonce valid).0, plain_suffix) (omega arith) (omega arith)

-- A name server below a cut, by its text.
pub server_parsed :
    (dns : Dnspython) (laws : NameLaws dns) (label nonce : Bytes)
    → IsPlainLabel label
    → is_nonce nonce ≡ true
    → dns.name_from_text (codes "ns." ++ dns.name_to_text (fresh_name label nonce))
      ≡ some (codes "ns" ∷ fresh_name label nonce)
server_parsed dns laws label nonce plain valid =
    let size = nonce_length nonce valid in
    let below : All IsPlainLabel
        (label ∷ nonce ∷ codes "fresh" ∷ codes "example" ∷ codes "test" ∷ []) =
      (plain, ((nonce-plain nonce valid).0, plain_suffix)) in
    let text =
      laws.to_text_dotted (label ∷ nonce ∷ codes "fresh" ∷ codes "example" ∷ codes "test" ∷ [])
        below (omega arith) in
    rw text (
      laws.from_text_dotted
        (codes "ns" ∷ label ∷ nonce ∷ codes "fresh" ∷ codes "example" ∷ codes "test" ∷ [])
        ((refl, omega arith, omega arith), below) (omega arith) (omega arith))

pub zone_labels-InZone : (nonce : Bytes) → is_nonce nonce ≡ true → InZone nonce (zone_labels nonce)
zone_labels-InZone nonce valid = record { front = []; same = rw (nonce-plain nonce valid).1 refl }

-- Letter case of labels.
plain_char-lower : (c : ℕ) → is_plain_char (to_lower c) ≡ true → is_plain_char c ≡ true
plain_char-lower c plain = ground arith

all_plain-lower : (s : Text) → all_plain (lower s) ≡ true → all_plain s ≡ true
all_plain-lower [] plain = refl
all_plain-lower (c ∷ s) plain =
    and_true _ _ (plain_char-lower c (and_left _ _ plain)) (all_plain-lower s (and_right _ _ plain))

-- A name that is a text of plain labels but for letter case.
pub record IsPlainName (name : Name) (size : ℕ) : Type 0 where
  pub labels : List Text
  pub ends : name ≡ labels ++ [] ∷ []
  pub plain : All IsPlainLabel labels
  pub short : wire_length labels ≡ size

lower-IsPlainName :
    (name : Name) (ls : List Text)
    → map lower name ≡ ls ++ [] ∷ []
    → All IsPlainLabel ls
    → IsPlainName name (wire_length ls)
lower-IsPlainName [] [] same all = absurd cc
lower-IsPlainName [] (l ∷ ls) same all = absurd cc
lower-IsPlainName ([] ∷ []) [] same all = record {
  labels = [];
  ends = refl;
  plain = tt;
  short = refl;
}
lower-IsPlainName ((c ∷ s) ∷ []) [] same all = absurd cc
lower-IsPlainName (x ∷ y ∷ name) [] same all = absurd cc
lower-IsPlainName (x ∷ name) (l ∷ ls) same ((plain, some_bytes, short), all) =
    let first : lower x ≡ l = cc in
    let others : map lower name ≡ ls ++ [] ∷ [] = cc in
    let rest = lower-IsPlainName name ls others all in
    let size : length x ≡ length l = sym (length-map to_lower x) ∙ ap length first in
    record {
      labels = x ∷ rest.labels;
      ends = ap (◌∷◌ x) rest.ends;
      plain = ((all_plain-lower x (rw first plain), omega arith, omega arith), rest.plain);
      short = omega (arith, rest.short);
    }

some_label : (ls : List Text) → 1 ≤ wire_length ls → 1 ≤ length ls
some_label [] h = absurd (omega arith)
some_label (l ∷ ls) h = omega arith

-- Its text is read back.
pub to_text-parsed :
    (dns : Dnspython) (laws : NameLaws dns) (name : Name) (label nonce : Text)
    → IsPlainLabel label
    → lower label ≡ label
    → is_nonce nonce ≡ true
    → map lower name ≡ map lower (fresh_name label nonce)
    → dns.name_from_text (dns.name_to_text name) ≡ some name
to_text-parsed dns laws name label nonce plain lowered valid same =
    let ls : List Text = label ∷ nonce ∷ codes "fresh" ∷ codes "example" ∷ codes "test" ∷ [] in
    let labels : map lower name ≡ ls ++ [] ∷ [] =
      same ∙ (rw (lowered, (nonce-plain nonce valid).1) refl) in
    let n = lower-IsPlainName name ls labels (plain, ((nonce-plain nonce valid).0, plain_suffix)) in
    let size = nonce_length nonce valid in
    let some = some_label n.labels (omega (arith, n.short)) in
    rw (n.ends, laws.to_text_dotted n.labels n.plain some)
      (laws.from_text_dotted n.labels n.plain some (omega (arith, n.short)))
