-- ===== src/Zones/Order.antt =====
-- The order of the fixtures in bind/scripts/generate-large-fixtures.py.
use dns_server_lan_fixtures.Prelude.{
  not_true, ℕ, ◌≡◌, refl, sym, ap, ◌∙◌, ◌≢◌, inl, inr, Bool, true, false, not, ◌&&◌, ◌||◌, List, [],
  ◌∷◌, arith, Text, All, ltb, ◌==◌, Bool-cases,
}
use mathlib.Core.List.{Permᴰ}
use mathlib.Core.List.Permᴰ.{nil, cons, swap, trans}
use mathlib.Core.Path.{subst}
use dns_server_lan_fixtures.Zones.{sorted, render_zone, build_manifest, Item, insert, less}

-- The first characters of two texts, with the comparison of the rests.
total_step :
    (x y : ℕ) (p q : Bool)
    → ((x ≡ y) → p ≡ not q)
    → (ltb y x || (y == x && p)) ≡ not (ltb x y || (x == y && q))
total_step x y p q rests = ground (arith, rests)

behind_step :
    (x y z : ℕ) (p q r : Bool)
    → (ltb z x || (z == x && p)) ≡ false
    → (ltb z y || (z == y && q)) ≡ true
    → (p ≡ false → q ≡ true → r ≡ true)
    → (ltb x y || (x == y && r)) ≡ true
behind_step x y z p q r h k rests = ground (arith, rests)

-- One of two different texts comes first.
less_total : (a b : Text) → a ≢ b → less b a ≡ not (less a b)
unfolding less
less_total [] [] differ = absurd (differ refl)
less_total [] (y ∷ b) differ = refl
less_total (x ∷ a) [] differ = refl
less_total (x ∷ a) (y ∷ b) differ =
    total_step x y (less b a) (less a b) (λ e. less_total a b (λ tails. differ cc))

-- What is not behind the first is before what is behind it.
less_behind : (a b c : Text) → less c a ≡ false → less c b ≡ true → less a b ≡ true
unfolding less
less_behind a [] [] h k = absurd (not_true k)
less_behind a [] (z ∷ c) h k = absurd (not_true k)
less_behind [] (y ∷ b) c h k = refl
less_behind (x ∷ a) (y ∷ b) [] h k = absurd (not_true (sym h))
less_behind (x ∷ a) (y ∷ b) (z ∷ c) h k =
    behind_step x y z (less c a) (less c b) (less a b) h k (less_behind a b c)

-- The order in which two items with different names are put in does not matter.
insert-insert :
    (a b : Item) (l : List Item) → a.name ≢ b.name → insert a (insert b l) ≡ insert b (insert a l)
unfolding insert
insert-insert a b [] differ =
    let total = less_total a.name b.name differ in
    elim (Bool-cases (less a.name b.name)) [
      | inl first ↦ rw (total, first) refl
      | inr second ↦ rw (total, second) refl
    ]
insert-insert a b (c ∷ l) differ =
    let total = less_total a.name b.name differ in
    elim (Bool-cases (less c.name a.name)) [
      | inl q ↦ elim (Bool-cases (less c.name b.name)) [
        | inl p ↦ simp (p, q) (ap (◌∷◌ c) (insert-insert a b l differ))
        | inr p ↦ let back = less_behind b.name a.name c.name p q in simp (p, q, back)
      ]
      | inr q ↦ elim (Bool-cases (less c.name b.name)) [
        | inl p ↦ let front = less_behind a.name b.name c.name q p in simp (p, q, front)
        | inr p ↦ elim (Bool-cases (less a.name b.name)) [
          | inl first ↦ simp (p, q, total, first)
          | inr second ↦ simp (p, q, total, second)
        ]
      ]
    ]

-- The names of a dictionary.
abbrev pub AreDistinct : List Item → Type 0
AreDistinct [] = Unit
AreDistinct (x ∷ xs) = All (λ y. x.name ≢ y.name) xs × AreDistinct xs

All-Permᴰ : (P : Item → Type 0) {xs ys : List Item} → Permᴰ xs ys → All P xs → All P ys
All-Permᴰ P nil all = tt
All-Permᴰ P (cons e p) (h, all) = (subst P e h, All-Permᴰ P p all)
All-Permᴰ P (swap e f) (h, (k, all)) = (subst P f k, (subst P e h, all))
All-Permᴰ P (trans p q) all = All-Permᴰ P q (All-Permᴰ P p all)

-- The name of an item is none of the others'.
abbrev IsNew : List Item → Item → Type 0
IsNew xs x = All (λ y. x.name ≢ y.name) xs

AreDistinct-Permᴰ : {xs ys : List Item} → Permᴰ xs ys → AreDistinct xs → AreDistinct ys
AreDistinct-Permᴰ nil distinct = tt
AreDistinct-Permᴰ (cons {a = a} {l₂ = l₂} e p) (h, distinct) =
    (subst (IsNew l₂) e (All-Permᴰ (λ y. a.name ≢ y.name) p h), AreDistinct-Permᴰ p distinct)
AreDistinct-Permᴰ (swap {a = a} {b = b} {b' = b'} {l = l} e f) ((differ, h), (k, distinct)) =
    let apart = subst (λ x. b.name ≢ x.name) e (λ same. differ (sym same)) in
    ((subst (λ x. x.name ≢ b'.name) f apart, subst (IsNew l) f k), (subst (IsNew l) e h, distinct))
AreDistinct-Permᴰ (trans p q) distinct = AreDistinct-Permᴰ q (AreDistinct-Permᴰ p distinct)

sorted-Permᴰ : {xs ys : List Item} → Permᴰ xs ys → AreDistinct xs → sorted xs ≡ sorted ys
unfolding sorted
sorted-Permᴰ nil distinct = refl
sorted-Permᴰ (cons {b = b} {l₁ = l₁} e p) (_, distinct) =
    ap (λ x. insert x (sorted l₁)) e ∙ ap (insert b) (sorted-Permᴰ p distinct)
sorted-Permᴰ (swap {a = a} {b = b} {a' = a'} {l = l} e f) ((differ, _), _) =
    insert-insert a b (sorted l) differ
    ∙ (ap (λ x. insert x (insert a (sorted l))) f ∙ ap (λ x. insert a' (insert x (sorted l))) e)
sorted-Permᴰ (trans p q) distinct =
    sorted-Permᴰ p distinct ∙ sorted-Permᴰ q (AreDistinct-Permᴰ p distinct)

-- The zone and the manifest do not depend on the order of a dictionary with distinct names.
pub render_zone-Permᴰ :
    (xs ys : List Item)
    → Permᴰ xs ys
    → AreDistinct xs
    → (render_zone xs ≡ render_zone ys) × (build_manifest xs ≡ build_manifest ys)
unfolding render_zone build_manifest
render_zone-Permᴰ xs ys p distinct =
    let same = sorted-Permᴰ p distinct in (rw same refl, rw same refl)
