-- ===== src/Proxy/Fresh/Reply/Servers.antt =====
-- The name servers that a referral names, and their addresses: what `glue_targets` and `required` of
-- `_encode_response` are, and `any(rrset not in sent.additional for rrset in required)`.
use dns_server_lan_fixtures.Prelude.{
  ℕ, ◌≡◌, refl, sym, ◌∙◌, ◌≢◌, ◌⊎◌, inl, inr, Bool, true, false, not, ◌&&◌, ◌||◌, some, List, [],
  ◌∷◌, ◌++◌, arith, Text, All, not_true, ◌==◌, ==_iff, Bool-cases,
}
use dns_server_lan_fixtures.Outcome.{returned}
use dns_server_lan_fixtures.Proxy.Fresh.Dns.{Name, Rrset, Dnspython}
use dns_server_lan_fixtures.Proxy.Fresh.Additional.{mem_rrset, last_word}
use dns_server_lan_fixtures.Proxy.Fresh.Rdtype
use dns_server_lan_fixtures.Proxy.Fresh.Reply.{
  targets_of_items, mem_name, lacks, glue_targets, required_glue,
}

-- The name servers that the items of a set name, of those in the domain of its owner.
pub data TargetsIn (dns : Dnspython) (owner : Name) : List Text → List Name → Type 0 where
  no_items : TargetsIn dns owner [] []
  inside :
      {item : Text} {items : List Text} {named : Name} {targets : List Name}
      → dns.name_from_text (last_word item) ≡ some named
      → dns.is_subdomain named owner ≡ true
      → TargetsIn dns owner items targets
      → TargetsIn dns owner (item ∷ items) (named ∷ targets)
  outside :
      {item : Text} {items : List Text} {named : Name} {targets : List Name}
      → dns.name_from_text (last_word item) ≡ some named
      → dns.is_subdomain named owner ≡ false
      → TargetsIn dns owner items targets
      → TargetsIn dns owner (item ∷ items) targets

-- The name servers that the sets of type NS (2) name in their domains, one after the other.
pub data ServersOf (dns : Dnspython) : List Rrset → List Name → Type 0 where
  no_sets : ServersOf dns [] []
  ns :
      {r : Rrset} {rs : List Rrset} {own more : List Name}
      → r.rdtype ≡ 2
      → TargetsIn dns r.owner r.items own
      → ServersOf dns rs more
      → ServersOf dns (r ∷ rs) (own ++ more)
  other :
      {r : Rrset} {rs : List Rrset} {more : List Name}
      → r.rdtype ≢ 2
      → ServersOf dns rs more
      → ServersOf dns (r ∷ rs) more

-- The addresses of a name server: a set of type A (1) or AAAA (28) with its name.
abbrev pub IsGlue : Dnspython → List Name → Rrset → Type 0
IsGlue dns targets r = (mem_name dns r.owner targets ≡ true) × ((r.rdtype ≡ 1) ⊎ (r.rdtype ≡ 28))

-- Every set of addresses of the name servers is there.
abbrev pub AllSent : Dnspython → List Name → List Rrset → List Rrset → Type 0
AllSent dns targets additional sent =
    All (λ r. (¬ IsGlue dns targets r) ⊎ (mem_rrset dns r sent ≡ true)) additional

neither : (a b : Bool) → (not a || b) ≡ false → (a ≡ true) × (b ≡ false)
neither true b h = (refl, h)
neither false b h = cc

targets_of_items-TargetsIn :
    {dns : Dnspython} {owner : Name} {items : List Text} {targets : List Name}
    → TargetsIn dns owner items targets
    → targets_of_items dns owner items ≡ returned targets
unfolding targets_of_items
targets_of_items-TargetsIn no_items = refl
targets_of_items-TargetsIn (inside named within rest) =
    rw (named, targets_of_items-TargetsIn rest, within) refl
targets_of_items-TargetsIn (outside named without rest) =
    rw (named, targets_of_items-TargetsIn rest, without) refl

pub glue_targets-ServersOf :
    {dns : Dnspython} {sets : List Rrset} {targets : List Name}
    → ServersOf dns sets targets
    → glue_targets dns sets ≡ returned targets
unfolding glue_targets
glue_targets-ServersOf no_sets = refl
glue_targets-ServersOf (ns is own rest) =
    rw (is, targets_of_items-TargetsIn own, glue_targets-ServersOf rest) refl
glue_targets-ServersOf {sets = r ∷ rs} (other is_not rest) =
    rw (not_equal r.rdtype 2 is_not, glue_targets-ServersOf rest) refl
  where
    not_equal : (a b : ℕ) → a ≢ b → (a == b) ≡ false
    not_equal a b h = ground arith

-- `required_glue` decides what the addresses are.
IsGlue-cases :
    (dns : Dnspython) (targets : List Name) (r : Rrset)
    → let test =
        mem_name dns r.owner targets && (r.rdtype == Rdtype.a || r.rdtype == Rdtype.aaaa) in
      ((test ≡ true) × IsGlue dns targets r) ⊎ ((test ≡ false) × (¬ IsGlue dns targets r))
IsGlue-cases dns targets r = elim (Bool-cases (mem_name dns r.owner targets)) [
  | inl named ↦ rw named (by_type r.rdtype)
  | inr unnamed ↦ rw unnamed (inr (refl, λ glue. not_true (glue.0)))
]
  where
    by_type :
        (t : ℕ)
        → (((true && (t == 1 || t == 28)) ≡ true) × ((true ≡ true) × ((t ≡ 1) ⊎ (t ≡ 28))))
          ⊎ (((true && (t == 1 || t == 28)) ≡ false) × (¬ ((true ≡ true) × ((t ≡ 1) ⊎ (t ≡ 28)))))
    by_type t = elim (Bool-cases (t == 1)) [
      | inl is_a ↦ rw is_a (inl (refl, (refl, inl ((==_iff t 1).0 is_a))))
      | inr not_a ↦ elim (Bool-cases (t == 28)) [
        | inl is_aaaa ↦ rw (not_a, is_aaaa) (inl (refl, (refl, inr ((==_iff t 28).0 is_aaaa))))
        | inr not_aaaa ↦
            rw (not_a, not_aaaa)
              (inr (
                refl,
                λ glue. elim (glue.1) [
                  | inl e ↦ not_true (sym not_a ∙ (==_iff t 1).1 e)
                  | inr e ↦ not_true (sym not_aaaa ∙ (==_iff t 28).1 e)
                ],
              ))
      ]
    ]

-- `required_glue` and `lacks` decide whether a set is missing.
pub lacks-AllSent :
    (dns : Dnspython) (targets : List Name) (additional sent : List Rrset)
    → lacks dns (required_glue dns targets additional) sent ≡ false
    → AllSent dns targets additional sent
unfolding lacks required_glue
lacks-AllSent dns targets [] sent complete = tt
lacks-AllSent dns targets (r ∷ rs) sent complete = elim (IsGlue-cases dns targets r) [
  | inl (test, glue) ↦
      let (there, others) = neither (mem_rrset dns r sent) _ (rw test at complete) in
      (inr there, lacks-AllSent dns targets rs sent others)
  | inr (test, no_glue) ↦ (inl no_glue, lacks-AllSent dns targets rs sent (rw test at complete))
]

pub AllSent-lacks :
    (dns : Dnspython) (targets : List Name) (additional sent : List Rrset)
    → AllSent dns targets additional sent
    → lacks dns (required_glue dns targets additional) sent ≡ false
unfolding lacks required_glue
AllSent-lacks dns targets [] sent all = refl
AllSent-lacks dns targets (r ∷ rs) sent (there, all) =
    let others = AllSent-lacks dns targets rs sent all in
    elim (IsGlue-cases dns targets r) [
      | inr (test, no_glue) ↦ rw test others
      | inl (test, glue) ↦ elim there [
        | inl no_glue ↦ absurd (no_glue glue)
        | inr sent_too ↦ rw (test, sent_too) others
      ]
    ]
