-- ===== src/Prelude/Texts.antt =====
-- Texts as lists of code points, with the string methods that the program calls. `lower` is
-- exact on ASCII, which is all that reaches it.
use Prim.Native.Nat.{ℕ, zero, suc, ◌+◌}
use Prim.Native.Char.{code}
use Prim.Native.String.{String}
use mathlib.Core.Path.{◌≡◌, refl, ap, ◌∙◌, sym}
use mathlib.Core.Logic.{◌↔◌, inl, inr}
use mathlib.Core.Bool.{Bool, true, false, ◌&&◌, ◌||◌}
use mathlib.Core.List.{List, [], ◌∷◌, ◌++◌, map, append-nil, append_assoc}
use native.Mathlib.Omega.{arith}
use dns_server_lan_fixtures.Prelude.Tests.{Bool-cases, ==_iff, leb, ◌==◌, if◌then◌else◌}

abbrev pub Bytes : Type 0
Bytes = List ℕ

abbrev pub Text : Type 0
Text = List ℕ

-- The code points of a literal.
abbrev pub codes : String → Text
codes String.[] = []
codes (String.◌∷◌ c s) = code c ∷ codes s

abbrev pub to_lower : ℕ → ℕ
to_lower c = if leb b'A' c && leb c b'Z' then c + 32 else c

-- s.lower()
abbrev pub lower : Text → Text
lower = map to_lower

to_lower_idem : (c : ℕ) → to_lower (to_lower c) ≡ to_lower c
to_lower_idem c = ground arith

pub lower_idem : (s : Text) → lower (lower s) ≡ lower s
lower_idem [] = refl
lower_idem (c ∷ s) = cc (to_lower_idem c, lower_idem s)

-- s == t
unfoldable pub eq_bytes : Bytes → Bytes → Bool
eq_bytes [] [] = true
eq_bytes (x ∷ xs) (y ∷ ys) = x == y && eq_bytes xs ys
eq_bytes _ _ = false

pub eq_bytes_iff : (a b : Bytes) → (eq_bytes a b ≡ true) ↔ (a ≡ b)
unfolding eq_bytes
eq_bytes_iff [] [] = ground arith
eq_bytes_iff [] (y ∷ b) = ground arith
eq_bytes_iff (x ∷ a) [] = ground arith
eq_bytes_iff (x ∷ a) (y ∷ b) = ground (arith, eq_bytes_iff a b)

-- k in {…}
unfoldable pub mem_bytes : Bytes → List Bytes → Bool
unfolding eq_bytes
mem_bytes k [] = false
mem_bytes k (x ∷ xs) = eq_bytes k x || mem_bytes k xs

-- s.rstrip(".")
unfoldable pub rstrip_dots : Text → Text
rstrip_dots [] = []
rstrip_dots (c ∷ s) = add_front c (rstrip_dots s)
  where
    add_front : ℕ → Text → Text
    add_front d [] = if d == b'.' then [] else d ∷ []
    add_front d (x ∷ r) = d ∷ x ∷ r

-- s.split("."): the label read so far, then the rest.
split_dots_onto : Text → Text → List Text
split_dots_onto acc [] = acc ∷ []
split_dots_onto acc (c ∷ s) =
    let next = split_dots_onto [] s in
    let more = split_dots_onto (acc ++ c ∷ []) s in if c == b'.' then acc ∷ next else more

unfoldable pub split_dots : Text → List Text
unfolding split_dots_onto
split_dots = split_dots_onto []

-- ".".join(labels)
unfoldable pub join_dots : List Text → Text
join_dots [] = []
join_dots (l ∷ []) = l
join_dots (l ∷ m ∷ r) = l ++ (b'.' ∷ join_dots (m ∷ r))

split_dots_onto-cons :
    (acc s : Text) → (l : Text) × (ls : List Text) × (split_dots_onto acc s ≡ l ∷ ls)
unfolding split_dots_onto
split_dots_onto-cons acc [] = (acc, [], refl)
split_dots_onto-cons acc (c ∷ s) = elim (Bool-cases (c == b'.')) [
  | inl dot ↦ (acc, split_dots_onto [] s, rw dot)
  | inr other ↦ let (l, ls, e) = split_dots_onto-cons (acc ++ c ∷ []) s in (l, ls, rw other e)
]

join-cons :
    (l : Text) (r : List Text) {m : Text} {ls : List Text}
    → r ≡ m ∷ ls
    → join_dots (l ∷ r) ≡ l ++ (b'.' ∷ join_dots r)
unfolding join_dots
join-cons l r e = rw e

join-split_onto : (acc s : Text) → join_dots (split_dots_onto acc s) ≡ acc ++ s
unfolding split_dots_onto join_dots
join-split_onto acc [] = sym (append-nil acc)
join-split_onto acc (c ∷ s) = elim (Bool-cases (c == b'.')) [
  | inl dot ↦
      let (l, ls, e) = split_dots_onto-cons [] s in
      rw dot
        (join-cons acc (split_dots_onto [] s) e ∙ rw (join-split_onto [] s, (==_iff c b'.').0 dot))
  | inr other ↦ rw other (join-split_onto (acc ++ c ∷ []) s ∙ append_assoc acc (c ∷ []) s)
]

-- ".".join(s.split(".")) == s
pub join_dots-split_dots : (s : Text) → join_dots (split_dots s) ≡ s
unfolding split_dots
join_dots-split_dots s = join-split_onto [] s

-- s.split(".") is never empty.
pub split_dots-cons : (s : Text) → (l : Text) × (ls : List Text) × (split_dots s ≡ l ∷ ls)
unfolding split_dots
split_dots-cons s = split_dots_onto-cons [] s

-- "." * n
abbrev pub dots : ℕ → Text
dots zero = []
dots (suc n) = b'.' ∷ dots n

rstrip_dots-dots : (n : ℕ) → rstrip_dots (dots n) ≡ []
unfolding rstrip_dots
rstrip_dots-dots zero = refl
rstrip_dots-dots (suc n) = rw (rstrip_dots-dots n) refl

pub rstrip_dots-append : (s : Text) (n : ℕ) → rstrip_dots (s ++ dots n) ≡ rstrip_dots s
unfolding rstrip_dots
rstrip_dots-append [] n = rstrip_dots-dots n
rstrip_dots-append (c ∷ s) n = rw (rstrip_dots-append s n) refl

-- What is stripped are dots.
pub rstrip_dots-stripped : (s : Text) → (n : ℕ) × (s ≡ rstrip_dots s ++ dots n)
unfolding rstrip_dots
rstrip_dots-stripped [] = (0, refl)
rstrip_dots-stripped (c ∷ s) =
    let (n, e) = rstrip_dots-stripped s in by_rest n (rstrip_dots s) refl e
  where
    by_rest :
        (n : ℕ) (rest : Text)
        → rstrip_dots s ≡ rest
        → s ≡ rstrip_dots s ++ dots n
        → (m : ℕ) × (c ∷ s ≡ rstrip_dots (c ∷ s) ++ dots m)
    by_rest n [] none_left e = elim (Bool-cases (c == b'.')) [
      | inl dot ↦ (suc n, rw (none_left, dot) (cc (rw none_left at e, (==_iff c b'.').0 dot)))
      | inr letter ↦ (n, rw (none_left, letter) (ap (◌∷◌ c) (rw none_left at e)))
    ]
    by_rest n (x ∷ rest) left e = (n, rw left (ap (◌∷◌ c) (rw left at e)))
