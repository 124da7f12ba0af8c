-- ===== src/Proxy/Fresh/Plain/Laws.antt =====
-- The concrete library keeps the laws that the theorems on fault_proxy/fresh_fixtures.py assume.
use dns_server_lan_fixtures.Prelude.{
  ℕ, ◌+◌, ◌-◌, ◌≤◌, ◌≡◌, refl, sym, ap, ◌∙◌, inl, inr, true, false, none, some, List, [], ◌∷◌, ◌++◌,
  map, append-nil, append_assoc, arith, Bytes, Text, Option, drop, u16, lower, eq_bytes_iff, length,
  All, length-append, take-append_of_length, drop-append_of_length, length-map, and_left, and_right,
  and_true, leb, ◌==◌, if◌then◌else◌, leb→le, le→leb, Bool-cases,
}
use dns_server_lan_fixtures.Proxy.Fresh.Dns.{
  Name, Question, Edns, Message, WireLaws, NameLaws, ResponseLaws, SizeLaws, is_plain_char,
  all_plain, IsPlainLabel, wire_length, dotted,
}
use dns_server_lan_fixtures.Proxy.Fresh.Plain.{
  plain_dns, labels_onto, not_empty_front, if_short, all_short, plain_to_text, eq_names,
  plain_relativize, if_fits, wire_of, short_wire, name_at, plain_labels, wire_name, wire_questions,
  wire_edns,
}

if_fits-le : (size : ℕ) (wire out : Bytes) → if_fits size wire ≡ some out → length out ≤ size
if_fits-le size wire out same = elim (Bool-cases (leb (length wire) size)) [
  | inl fits ↦
      let e : some wire ≡ some out = rw fits at same in
      let equal : wire ≡ out = cc in rw equal at (leb→le (length wire) size fits)
  | inr long ↦ let e : none ≡ some out = rw long at same in cc
]

pub plain-SizeLaws : SizeLaws plain_dns
plain-SizeLaws = record {
  to_wire_fits = λ m size wire low high same. if_fits-le size (wire_of m) wire same;
  to_wire_truncated_fits = λ m size wire low high same. if_fits-le size (short_wire m) wire same;
}

pub plain-ResponseLaws : ResponseLaws plain_dns
plain-ResponseLaws = record {
  made_questions = λ query. refl;
  made_answer = λ query. refl;
  made_authority = λ query. refl;
  made_additional = λ query. refl;
  made_aa = λ query. refl;
}

-- A plain character is neither a dot nor a backslash.
plain_char : (c : ℕ) → is_plain_char c ≡ true → ((c == b'.') ≡ false) × ((c == b'\\') ≡ false)
plain_char c plain = ground arith

labels_onto-plain :
    (l s rest : Text)
    → all_plain s ≡ true
    → labels_onto l (s ++ (b'.' ∷ rest)) ≡ not_empty_front (l ++ s) (labels_onto [] rest)
unfolding labels_onto
labels_onto-plain [] [] rest plain = refl
labels_onto-plain (x ∷ l) [] rest plain = rw (append-nil l) refl
labels_onto-plain [] (c ∷ s) rest plain =
    let (dot, slash) = plain_char c (and_left _ _ plain) in
    rw (dot, slash) (labels_onto-plain (c ∷ []) s rest (and_right _ _ plain))
labels_onto-plain (x ∷ l) (c ∷ s) rest plain =
    let (dot, slash) = plain_char c (and_left _ _ plain) in
    rw (dot, slash)
      (labels_onto-plain (x ∷ l ++ c ∷ []) s rest (and_right _ _ plain)
        ∙ (rw (append_assoc l (c ∷ []) s) refl))

front_some : (l : Text) (ls : Name) → 1 ≤ length l → not_empty_front l (some ls) ≡ some (l ∷ ls)
front_some [] ls h = absurd (omega arith)
front_some (c ∷ l) ls h = refl

labels_onto-dotted :
    (ls : List Text) → All IsPlainLabel ls → labels_onto [] (dotted ls) ≡ some (ls ++ [] ∷ [])
unfolding labels_onto
labels_onto-dotted [] all = refl
labels_onto-dotted (l ∷ ls) ((plain, some_bytes, _), all) =
    labels_onto-plain [] l (dotted ls) plain
    ∙ (rw (labels_onto-dotted ls all) (front_some l (ls ++ [] ∷ []) some_bytes))

short_labels : (ls : List Text) → All IsPlainLabel ls → all_short (ls ++ [] ∷ []) ≡ true
short_labels [] all = refl
short_labels (l ∷ ls) ((_, _, short), all) =
    and_true _ _ (le→leb (length l) 63 short) (short_labels ls all)

wire_length-root : (ls : List Text) → wire_length (ls ++ [] ∷ []) ≡ wire_length ls + 1
wire_length-root [] = refl
wire_length-root (l ∷ ls) = omega (arith, wire_length-root ls)

if_short-some :
    (name : Name)
    → all_short name ≡ true
    → wire_length name ≤ 255
    → if_short (some name) ≡ some name
if_short-some name short fits = rw (short, le→leb (wire_length name) 255 fits) refl

plain_to_text-dotted : (ls : List Text) → plain_to_text (ls ++ [] ∷ []) ≡ dotted ls
plain_to_text-dotted [] = refl
plain_to_text-dotted (l ∷ []) = refl
plain_to_text-dotted (l ∷ next ∷ ls) = ap (λ s. l ++ (b'.' ∷ s)) (plain_to_text-dotted (next ∷ ls))

eq_names-lower : (a b : Name) → eq_names a b ≡ true → map lower a ≡ map lower b
unfolding eq_names
eq_names-lower [] [] same = refl
eq_names-lower [] (y ∷ b) same = cc
eq_names-lower (x ∷ a) [] same = cc
eq_names-lower (x ∷ a) (y ∷ b) same =
    let first = (eq_bytes_iff (lower x) (lower y)).0 (and_left _ _ same) in
    let rest = eq_names-lower a b (and_right _ _ same) in rw (first, rest) refl

lower-eq_names : (a b : Name) → map lower a ≡ map lower b → eq_names a b ≡ true
unfolding eq_names
lower-eq_names [] [] same = refl
lower-eq_names [] (y ∷ b) same = cc
lower-eq_names (x ∷ a) [] same = cc
lower-eq_names (x ∷ a) (y ∷ b) same =
    let first : lower x ≡ lower y = cc in
    let rest : map lower a ≡ map lower b = cc in
    and_true _ _ ((eq_bytes_iff (lower x) (lower y)).1 first) (lower-eq_names a b rest)

below-plain :
    (front suffix origin : Name)
    → map lower suffix ≡ map lower origin
    → plain_relativize (front ++ suffix) origin ≡ front
unfolding plain_relativize
below-plain front suffix origin same =
    let sizes : length suffix ≡ length origin =
      sym (length-map lower suffix) ∙ (ap length same ∙ length-map lower origin) in
    let start : length (front ++ suffix) - length origin ≡ length front =
      omega (arith, length-append front suffix) in
    rw
      (
        start,
        drop-append_of_length (length front) front suffix refl,
        lower-eq_names suffix origin same,
        take-append_of_length (length front) front suffix refl,
      )
      refl

joined-plain :
    (a b c : Name)
    → (if leb (wire_length (a ++ b)) 255 then some (a ++ b) else none) ≡ some c
    → c ≡ a ++ b
joined-plain a b c same = elim (Bool-cases (leb (wire_length (a ++ b)) 255)) [
  | inl fits ↦ let e : some (a ++ b) ≡ some c = rw fits at same in cc
  | inr long ↦ let e : none ≡ some c = rw long at same in cc
]

pub plain-NameLaws : NameLaws plain_dns
plain-NameLaws = record {
  from_text_dotted = λ ls all some_label fits.
      rw (labels_onto-dotted ls all)
        (if_short-some (ls ++ [] ∷ []) (short_labels ls all) (omega (arith, wire_length-root ls)));
  to_text_dotted = λ ls all some_label. plain_to_text-dotted ls;
  name_eq_iff = λ a b. (eq_names-lower a b, lower-eq_names a b);
  relativize_below = below-plain;
  concatenate_append = joined-plain;
}

name_at-fits :
    (found : Option (List Bytes × Bytes)) (name : Name) (used : ℕ)
    → name_at found ≡ some (name, used)
    → wire_length name ≤ 255
name_at-fits none name used same = cc
name_at-fits (some (ls, rest)) name used same = elim (Bool-cases (leb (wire_length ls) 255)) [
  | inl fits ↦
      let e : some (ls, wire_length ls) ≡ some (name, used) = rw fits at same in
      let names : ls ≡ name = cc in rw (sym names) (leb→le (wire_length ls) 255 fits)
  | inr long ↦ let e : none ≡ some (name, used) = rw long at same in cc
]

length-wire_name : (ls : Name) → length (wire_name ls) ≡ wire_length ls
length-wire_name [] = refl
length-wire_name (l ∷ ls) = rw (length-append l (wire_name ls), length-wire_name ls) (omega arith)

length-wire_questions :
    (qs : List Question)
    → length qs ≤ 1
    → All (λ q. wire_length q.labels ≤ 255) qs
    → length (wire_questions qs) ≤ 259
length-wire_questions [] few fit = omega arith
length-wire_questions (q ∷ []) few (fit, _) = omega (
  arith,
  fit,
  length-wire_name q.labels,
  length-append (wire_name q.labels ++ u16 q.rdtype ++ u16 q.rdclass) [],
  length-append (wire_name q.labels ++ u16 q.rdtype) (u16 q.rdclass),
  length-append (wire_name q.labels) (u16 q.rdtype),
)
length-wire_questions (q ∷ r ∷ qs) few fit = omega arith

length-wire_edns : (edns : Option Edns) → length (wire_edns edns) ≤ 11
length-wire_edns none = omega arith
length-wire_edns (some edns) = omega arith

length-wire_of :
    (m : Message)
    → m.answer ≡ []
    → m.authority ≡ []
    → m.additional ≡ []
    → length m.questions ≤ 1
    → All (λ q. wire_length q.labels ≤ 255) m.questions
    → length (wire_of m) ≤ 65535
length-wire_of m no_answer no_authority no_additional few fit =
    rw (no_answer, no_authority, no_additional)
      (omega (
        arith,
        length-wire_questions m.questions few fit,
        length-wire_edns m.edns,
        length-append (wire_questions m.questions ++ [] ++ [] ++ []) (wire_edns m.edns),
        length-append (wire_questions m.questions ++ [] ++ []) [],
        length-append (wire_questions m.questions ++ []) [],
        length-append (wire_questions m.questions) [],
      ))

pub plain-WireLaws : WireLaws plain_dns
plain-WireLaws = record {
  name_fits = λ wire offset name used found.
      name_at-fits (plain_labels 128 (drop offset wire)) name used found;
  to_wire_small = λ m no_answer no_authority no_additional few fit. (
    wire_of m,
    rw
        (le→leb (length (wire_of m)) 65535
          (length-wire_of m no_answer no_authority no_additional few fit))
        refl,
  );
}
