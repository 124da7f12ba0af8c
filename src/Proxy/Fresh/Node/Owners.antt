-- ===== src/Proxy/Fresh/Node/Owners.antt =====
-- Who owns the records that `_records` of fault_proxy/fresh_fixtures.py returns.
use dns_server_lan_fixtures.Prelude.{
  ℕ, ◌≡◌, refl, sym, ◌∙◌, ◌⊎◌, inl, inr, Bool, true, false, not, ◌&&◌, Option, none, some, List, [],
  ◌∷◌, map, arith, Bytes, Text, codes, lower, eq_bytes_iff, mem_bytes, All, if◌then◌else◌,
  Option-cases,
}
use dns_server_lan_fixtures.Outcome.{Outcome, returned, raised}
use dns_server_lan_fixtures.Proxy.Fresh.Dns.{Name, Rrset, Dnspython, NameLaws}
use dns_server_lan_fixtures.Proxy.Fresh.Rdtype
use dns_server_lan_fixtures.Proxy.Fresh.Name.{zone_of, is_nonce}
use dns_server_lan_fixtures.Proxy.Fresh.Name.Keys.{fresh_name, target_parsed}
use dns_server_lan_fixtures.Proxy.Fresh.Name.Zone.{
  InZone, zone_labels, zone_of-parsed, zone_labels-InZone, to_text-parsed,
}
use dns_server_lan_fixtures.Proxy.Fresh.Records.{rr_at, target, is, synthesized}
use dns_server_lan_fixtures.Proxy.Fresh.Sets.{aliases, dname_keys}
use dns_server_lan_fixtures.Proxy.Fresh.Node.Own.{IsOwn, address_records-AreOwn}
use dns_server_lan_fixtures.Proxy.Fresh.Node.{
  records, node_records, address_records, apex_records, server_records, child_records, server_keys,
}
use dns_server_lan_fixtures.Proxy.Fresh.Additional.{or_empty}

-- A set of records of the owner, or the zone's start of authority.
abbrev pub IsOwned : Bytes → Name → Rrset → Type 0
IsOwned nonce owner r = (r.owner ≡ owner) ⊎ ((r.rdtype ≡ Rdtype.soa) × InZone nonce r.owner)

abbrev OwnedIn : Bytes → Name → Outcome (Option (List Rrset)) → Type 0
OwnedIn nonce owner (raised e) = Unit
OwnedIn nonce owner (returned rs) = All (IsOwned nonce owner) (or_empty rs)

pub record AreOwned (nonce : Bytes) (owner : Name) (o : Outcome (Option (List Rrset)))
    : Type 0 where
  pub each : OwnedIn nonce owner o

none-AreOwned : {nonce : Bytes} {owner : Name} → AreOwned nonce owner (returned none)
none-AreOwned = record { each = tt }

one-AreOwned :
    {nonce : Bytes} (owner : Name) (kind : ℕ) (items : List Text)
    → AreOwned nonce owner (returned (some (rr_at owner kind 0 items ∷ [])))
one-AreOwned owner kind items = record { each = (inl refl, tt) }

own-IsOwned :
    (nonce : Bytes) (owner : Name) (rs : List Rrset)
    → All (IsOwn owner) rs
    → All (IsOwned nonce owner) rs
own-IsOwned nonce owner [] own = tt
own-IsOwned nonce owner (r ∷ rs) ((same, _), own) = (inl same, own-IsOwned nonce owner rs own)

if-AreOwned :
    {nonce : Bytes} {owner : Name} (b : Bool) (x y : Outcome (Option (List Rrset)))
    → (b ≡ true → AreOwned nonce owner x)
    → (b ≡ false → AreOwned nonce owner y)
    → AreOwned nonce owner (if b then x else y)
if-AreOwned true x y hx hy = hx refl
if-AreOwned false x y hx hy = hy refl

server-AreOwned :
    {nonce : Bytes} (owner : Name) (b : Bool) (ns start a : Rrset)
    → ns.owner ≡ owner
    → start.owner ≡ owner
    → a.owner ≡ owner
    → AreOwned nonce owner (returned (some (ns ∷ start ∷ (if b then a ∷ [] else []))))
server-AreOwned owner true ns start a hn hs ha = record { each = (inl hn, (inl hs, (inl ha, tt))) }
server-AreOwned owner false ns start a hn hs ha = record { each = (inl hn, (inl hs, tt)) }

is-same : (key name : Text) → is key name ≡ true → key ≡ name
is-same key name same = (eq_bytes_iff key name).0 same

exact_if : (b : Bool) → (not b && true) ≡ false → b ≡ true
exact_if true h = refl
exact_if false h = sym h

module _ (dns : Dnspython) (laws : NameLaws dns) (nonce : Bytes) (valid : is_nonce nonce ≡ true)
    (owner : Name) where
  apex_records-AreOwned : AreOwned nonce owner (apex_records dns (zone_of nonce) owner)
  unfolding apex_records
  apex_records-AreOwned =
      let parsed = zone_of-parsed dns laws nonce valid in
      rw parsed (
        if-AreOwned (dns.name_eq owner (zone_labels nonce)) _ _
          (λ _. record { each = (inr (refl, zone_labels-InZone nonce valid), (inl refl, tt)) })
          (λ _. none-AreOwned))

  server_records-AreOwned :
      (key : Text) → AreOwned nonce owner (server_records dns (zone_of nonce) owner key)
  unfolding server_records
  server_records-AreOwned key = server-AreOwned owner (is key (codes "ns")) _ _ _ refl refl refl

  child_records-AreOwned :
      map lower owner ≡ map lower (fresh_name (codes "additional-ns") nonce)
      → AreOwned nonce owner (child_records dns (zone_of nonce) owner)
  unfolding child_records
  child_records-AreOwned same =
      let parsed =
        to_text-parsed dns laws owner (codes "additional-ns") nonce (refl, omega arith, omega arith)
          refl valid same in
      rw parsed (record { each = (inl refl, (inl refl, tt)) })

  node_records-AreOwned :
      (key : Text)
      → (is key (codes "additional-ns") ≡ true
          → map lower owner ≡ map lower (fresh_name (codes "additional-ns") nonce))
      → AreOwned nonce owner (node_records dns (zone_of nonce) owner key)
  unfolding node_records
  node_records-AreOwned key exact =
      if-AreOwned (is key (codes "apex")) _ _ (λ _. apex_records-AreOwned)
        (λ _.
          if-AreOwned (mem_bytes key dname_keys) _ _ (λ _. one-AreOwned owner Rdtype.dname _)
            (λ _.
              if-AreOwned (mem_bytes key aliases) _ _ (λ _. one-AreOwned owner Rdtype.cname _)
                (λ _.
                  if-AreOwned (mem_bytes key server_keys) _ _ (λ _. server_records-AreOwned key)
                    (λ _.
                      if-AreOwned (is key (codes "additional-ns")) _ _
                        (λ child. child_records-AreOwned (exact child))
                        (λ _. record {
                          each =
                              own-IsOwned nonce owner
                                (or_empty (address_records (zone_of nonce) owner key))
                                ((address_records-AreOwn (zone_of nonce) owner key).each);
                        })))))

  child_owner :
      (key : Text) (named : Name)
      → dns.name_from_text (target (zone_of nonce) key) ≡ some named
      → (not (dns.name_eq owner named) && not (mem_bytes key synthesized)) ≡ false
      → is key (codes "additional-ns") ≡ true
      → map lower owner ≡ map lower (fresh_name (codes "additional-ns") nonce)
  unfolding mem_bytes
  child_owner key named parsed there child =
      let key_eq = is-same key (codes "additional-ns") child in
      let same : some named ≡ some (fresh_name (codes "additional-ns") nonce) =
        sym parsed
        ∙ (rw key_eq (
            target_parsed dns laws (codes "additional-ns") nonce (refl, omega arith, omega arith)
              valid)) in
      let name_eq : named ≡ fresh_name (codes "additional-ns") nonce = cc in
      let exact = exact_if (dns.name_eq owner named) (rw key_eq at there) in
      rw name_eq at ((laws.name_eq_iff owner named).0 exact)

  pub records-AreOwned : (key : Text) → AreOwned nonce owner (records dns (zone_of nonce) owner key)
  unfolding records
  records-AreOwned key = elim (Option-cases (dns.name_from_text (target (zone_of nonce) key))) [
    | inl fails ↦ rw fails (record { each = tt })
    | inr (named, parsed) ↦ rw parsed (
        if-AreOwned (not (dns.name_eq owner named) && not (mem_bytes key synthesized)) _ _
          (λ _. none-AreOwned)
          (λ there. node_records-AreOwned key (λ child. child_owner key named parsed there child)))
  ]
