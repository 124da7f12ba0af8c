-- ===== src/Proxy/Scenario/Dispatch.antt =====
-- When `scenario_for` selects a fault.
use dns_server_lan_fixtures.Prelude.{
  ℕ, ◌++◌, lower, dots, rstrip_dots, rstrip_dots-append, rstrip_dots-stripped, split_dots,
  join_dots, join_dots-split_dots, ◌≡◌, refl, sym, ap, ◌∙◌, ◌≢◌, ◌↔◌, ◌⊎◌, inl, inr, true, List, [],
  ◌∷◌, arith, Text, codes, eq_bytes, eq_bytes_iff, Bool-cases,
}
use dns_server_lan_fixtures.Proxy.Scenario.{
  Scenario, normal, value, scenarios, find_value, is_transport_zone, scenario_by_label,
  scenario_of_labels, scenario_labels, scenario_for,
}

-- The names that select `s`: four labels, the scenario's own in front.
abbrev pub scenario_name : Text → List Text
scenario_name label = label ∷ codes "transport" ∷ codes "example" ∷ codes "test" ∷ []

find_value-eq :
    (ss : List Scenario) (label : Text) (d : Scenario)
    → (find_value ss label d ≡ d) ⊎ (value (find_value ss label d) ≡ label)
unfolding find_value
find_value-eq [] label d = inl refl
find_value-eq (s ∷ ss) label d =
    ground (arith, eq_bytes_iff (value s) label, find_value-eq ss label d)

scenario_by_label-value : (s : Scenario) → scenario_by_label (value s) normal ≡ s
unfolding scenario_by_label eq_bytes
scenario_by_label-value Scenario.normal = refl
scenario_by_label-value _ = refl

value_of-scenario_by_label :
    (label : Text) (s : Scenario)
    → s ≢ normal
    → scenario_by_label label normal ≡ s
    → label ≡ value s
unfolding scenario_by_label
value_of-scenario_by_label label s h e = ground (arith, find_value-eq scenarios label normal)

is_transport_zone_iff :
    (a b c : Text)
    → (is_transport_zone a b c ≡ true)
      ↔ ((a ≡ codes "transport") × (b ≡ codes "example") × (c ≡ codes "test"))
unfolding is_transport_zone
is_transport_zone_iff a b c = ground (
  arith,
  eq_bytes_iff a (codes "transport"),
  eq_bytes_iff b (codes "example"),
  eq_bytes_iff c (codes "test"),
)

scenario_of_labels-eq :
    (ls : List Text) (s : Scenario)
    → s ≢ normal
    → scenario_of_labels ls ≡ s
    → ls ≡ scenario_name (value s)
unfolding scenario_of_labels
scenario_of_labels-eq (f ∷ a ∷ b ∷ c ∷ []) s h e = elim (Bool-cases (is_transport_zone a b c)) [
  | inl z ↦
      let (pa, pb, pc) = (is_transport_zone_iff a b c).0 z in
      cc (pa, pb, pc, value_of-scenario_by_label f s h (rw z at e))
  | inr z ↦ absurd (h (sym (rw z at e)))
]
scenario_of_labels-eq _ s h e = absurd (h (sym e))

scenario_of_labels-value : (s : Scenario) → scenario_of_labels (scenario_name (value s)) ≡ s
unfolding scenario_of_labels eq_bytes
scenario_of_labels-value s = scenario_by_label-value s

-- The same names as texts.
abbrev pub scenario_text : Scenario → Text
scenario_text s = value s ++ codes ".transport.example.test"

join_dots-scenario_name : (s : Scenario) → join_dots (scenario_name (value s)) ≡ scenario_text s
unfolding join_dots
join_dots-scenario_name s = refl

split_dots-scenario_text :
    (s : Scenario) → split_dots (rstrip_dots (scenario_text s)) ≡ scenario_name (value s)
unfolding split_dots rstrip_dots value
split_dots-scenario_text Scenario.normal = refl
split_dots-scenario_text _ = refl

-- A fault is selected exactly by the names that are, in lower case, the scenario's value with
-- ".transport.example.test" behind it, and then any number of dots.
pub scenario_for_iff :
    (qname : Text) (s : Scenario)
    → s ≢ normal
    → (scenario_for qname ≡ s) ↔ ((n : ℕ) × (lower qname ≡ scenario_text s ++ dots n))
unfolding scenario_for scenario_labels
scenario_for_iff qname s h = (
  λ e.
      let labels = scenario_of_labels-eq (scenario_labels qname) s h e in
      let stripped : rstrip_dots (lower qname) ≡ scenario_text s =
        sym (join_dots-split_dots (rstrip_dots (lower qname)))
        ∙ (ap join_dots labels ∙ join_dots-scenario_name s) in
      let (n, whole) = rstrip_dots-stripped (lower qname) in (n, rw stripped at whole),
  λ (n, spelt).
      let stripped : rstrip_dots (lower qname) ≡ rstrip_dots (scenario_text s) =
        ap rstrip_dots spelt ∙ rstrip_dots-append (scenario_text s) n in
      ap scenario_of_labels (ap split_dots stripped ∙ split_dots-scenario_text s)
      ∙ scenario_of_labels-value s,
)
