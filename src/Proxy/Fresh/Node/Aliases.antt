-- ===== src/Proxy/Fresh/Node/Aliases.antt =====
-- Which nodes of `_records` of fault_proxy/fresh_fixtures.py have a CNAME, and where it points.
use dns_server_lan_fixtures.Prelude.{
  ℕ, ◌≡◌, refl, ◌⊎◌, inl, inr, Bool, true, false, not, ◌&&◌, Option, none, some, List, [], ◌∷◌,
  Text, codes, mem_bytes, ◌==◌, if◌then◌else◌, Option-cases,
}
use dns_server_lan_fixtures.Outcome.{Outcome, returned, raised, ◌>>=◌}
use dns_server_lan_fixtures.Proxy.Fresh.Dns.{Name, Rrset, Dnspython}
use dns_server_lan_fixtures.Proxy.Fresh.Rdtype
use dns_server_lan_fixtures.Proxy.Fresh.Records.{
  Owner, or_raise, rr_at, rr, soa, target, is, synthesized,
}
use dns_server_lan_fixtures.Proxy.Fresh.Sets.{aliases, dname_keys}
use dns_server_lan_fixtures.Proxy.Fresh.Node.Own.{address_records-AreOwn, find_cname-IsOwn}
use dns_server_lan_fixtures.Proxy.Fresh.Node.{
  records, node_records, address_records, apex_records, server_records, child_records, server_keys,
  alias_label,
}
use dns_server_lan_fixtures.Proxy.Fresh.Additional.{or_empty}
use dns_server_lan_fixtures.Proxy.Fresh.Answer.{find_cname}

-- The CNAME of an alias.
abbrev pub alias_rr : Text → Name → Text → Rrset
alias_rr zone owner key = rr_at owner Rdtype.cname 0 (target zone (alias_label key) ∷ [])

abbrev pub HasAlias : Text → Name → Text → Option Rrset → Type 0
HasAlias zone owner key cname =
    (cname ≡ none) ⊎ ((mem_bytes key aliases ≡ true) × (cname ≡ some (alias_rr zone owner key)))

abbrev AliasOf : Text → Name → Text → Outcome (Option (List Rrset)) → Type 0
AliasOf zone owner key (raised e) = Unit
AliasOf zone owner key (returned rs) = HasAlias zone owner key (find_cname (or_empty rs))

-- What `_records` returns has no CNAME but that of an alias.
pub record HasOnlyAlias (zone : Text) (owner : Name) (key : Text)
    (o : Outcome (Option (List Rrset))) : Type 0 where
  pub alias_of : AliasOf zone owner key o

no_alias :
    {zone : Text} {owner : Name} {key : Text} (rs : Option (List Rrset))
    → find_cname (or_empty rs) ≡ none
    → HasOnlyAlias zone owner key (returned rs)
no_alias rs none_of = record { alias_of = inl none_of }

if-HasOnlyAlias :
    {zone : Text} {owner : Name} {key : Text} (b : Bool) (x y : Outcome (Option (List Rrset)))
    → (b ≡ true → HasOnlyAlias zone owner key x)
    → HasOnlyAlias zone owner key y
    → HasOnlyAlias zone owner key (if b then x else y)
if-HasOnlyAlias true x y hx hy = hx refl
if-HasOnlyAlias false x y hx hy = hy

bind-HasOnlyAlias :
    {zone : Text} {owner : Name} {key : Text} {A : Type 0} (o : Outcome A)
    (rest : A → Outcome (Option (List Rrset)))
    → ((x : A) → HasOnlyAlias zone owner key (rest x))
    → HasOnlyAlias zone owner key (o >>= rest)
bind-HasOnlyAlias (raised e) rest all = record { alias_of = tt }
bind-HasOnlyAlias (returned x) rest all = all x

-- The record that stands behind the start of authority.
server_alias :
    {zone : Text} {owner : Name} {key : Text} (b : Bool) (ns soa a : Rrset)
    → (ns.rdtype == Rdtype.cname) ≡ false
    → (soa.rdtype == Rdtype.cname) ≡ false
    → (a.rdtype == Rdtype.cname) ≡ false
    → HasOnlyAlias zone owner key (returned (some (ns ∷ soa ∷ (if b then a ∷ [] else []))))
unfolding find_cname
server_alias true ns soa a hn hs ha = no_alias _ (rw (hn, hs, ha) refl)
server_alias false ns soa a hn hs ha = no_alias _ (rw (hn, hs) refl)

-- The record that `_rr` makes.
rr-HasOnlyAlias :
    {zone : Text} {owner : Name} {key : Text} (dns : Dnspython) (own : Owner) (kind : ℕ)
    (items : List Text) (rest : Rrset → Outcome (Option (List Rrset)))
    → ((name : Name) → HasOnlyAlias zone owner key (rest (rr_at name kind 0 items)))
    → HasOnlyAlias zone owner key (rr dns own kind items >>= rest)
rr-HasOnlyAlias dns (inr name) kind items rest all = all name
rr-HasOnlyAlias dns (inl text) kind items rest all = elim (Option-cases (dns.name_from_text text)) [
  | inl fails ↦ rw fails (record { alias_of = tt })
  | inr (name, parsed) ↦ rw parsed (all name)
]

module _ (dns : Dnspython) (zone : Text) (owner : Name) where
  apex_records-HasOnlyAlias :
      (key : Text) → HasOnlyAlias zone owner key (apex_records dns zone owner)
  unfolding apex_records find_cname
  apex_records-HasOnlyAlias key = bind-HasOnlyAlias (or_raise (dns.name_from_text zone)) _ (λ apex.
      if-HasOnlyAlias (dns.name_eq owner apex) _ _
        (λ _. rr-HasOnlyAlias dns (inl zone) Rdtype.soa _ _ (λ name. no_alias _ refl))
        (no_alias none refl))

  server_records-HasOnlyAlias :
      (key : Text) → HasOnlyAlias zone owner key (server_records dns zone owner key)
  unfolding server_records
  server_records-HasOnlyAlias key = server_alias (is key (codes "ns")) _ _ _ refl refl refl

  child_records-HasOnlyAlias :
      (key : Text) → HasOnlyAlias zone owner key (child_records dns zone owner)
  unfolding child_records find_cname
  child_records-HasOnlyAlias key =
      rr-HasOnlyAlias dns (inl (dns.name_to_text owner)) Rdtype.soa _ _ (λ name. no_alias _ refl)

  address_records-HasOnlyAlias :
      (key : Text) → HasOnlyAlias zone owner key (returned (address_records zone owner key))
  address_records-HasOnlyAlias key = no_alias (address_records zone owner key) (
      find_cname-IsOwn owner (or_empty (address_records zone owner key))
        ((address_records-AreOwn zone owner key).each))

  node_records-HasOnlyAlias :
      (key : Text) → HasOnlyAlias zone owner key (node_records dns zone owner key)
  unfolding node_records find_cname
  node_records-HasOnlyAlias key =
      if-HasOnlyAlias (is key (codes "apex")) _ _ (λ _. apex_records-HasOnlyAlias key)
        (if-HasOnlyAlias (mem_bytes key dname_keys) _ _ (λ _. no_alias _ refl)
          (if-HasOnlyAlias (mem_bytes key aliases) _ _
            (λ alias. record { alias_of = inr (alias, refl) })
            (if-HasOnlyAlias (mem_bytes key server_keys) _ _ (λ _. server_records-HasOnlyAlias key)
              (if-HasOnlyAlias (is key (codes "additional-ns")) _ _
                (λ _. child_records-HasOnlyAlias key) (address_records-HasOnlyAlias key)))))

  pub records-HasOnlyAlias : (key : Text) → HasOnlyAlias zone owner key (records dns zone owner key)
  unfolding records find_cname
  records-HasOnlyAlias key =
      bind-HasOnlyAlias (or_raise (dns.name_from_text (target zone key))) _ (λ named.
        if-HasOnlyAlias (not (dns.name_eq owner named) && not (mem_bytes key synthesized)) _ _
          (λ _. no_alias none refl) (node_records-HasOnlyAlias key))
