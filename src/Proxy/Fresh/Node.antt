-- ===== src/Proxy/Fresh/Node.antt =====
-- The first branches of `_records` of fault_proxy/fresh_fixtures.py, and the function.
pub mod Own
pub mod Aliases
pub mod Owners
use dns_server_lan_fixtures.Prelude.{
  ℕ, inl, inr, not, ◌&&◌, Option, none, some, List, [], ◌∷◌, ◌++◌, Text, codes, eq_bytes, mem_bytes,
  if◌then◌else◌,
}
use dns_server_lan_fixtures.Outcome.{Outcome, returned, ◌>>=◌}
use dns_server_lan_fixtures.Proxy.Fresh.Dns.{Name, Rrset, Dnspython}
use dns_server_lan_fixtures.Proxy.Fresh.Rdtype
use dns_server_lan_fixtures.Proxy.Fresh.Sets.{address_keys, aliases, dname_keys}
use dns_server_lan_fixtures.Proxy.Fresh.Records.{
  or_raise, rr_at, soa, target, is, synthesized, service_records,
}

-- The texts of `additional_addresses`.
abbrev pub additional_keys : List Text
additional_keys =
    codes "additional-mail"
    ∷ codes "additional-service"
    ∷ codes "additional-dc"
    ∷ codes "additional-ns-host"
    ∷ []

abbrev pub additional_services : List Text
additional_services = codes "additional-srv" ∷ codes "additional-ad" ∷ []

abbrev pub server_keys : List Text
server_keys = codes "ns" ∷ codes "soa" ∷ []

-- "chain-hop" if key == "cname-chain" else "a"
abbrev pub alias_label : Text → Text
alias_label key = if is key (codes "cname-chain") then codes "chain-hop" else codes "a"

abbrev additional_address : Text → Text
additional_address key =
    if is key (codes "additional-mail")
    then codes "25"
    else if is key (codes "additional-service")
    then codes "40"
    else if is key (codes "additional-dc")
    then codes "60"
    else codes "53"

abbrev additional_service : Text → Text → Text
additional_service zone key =
    if is key (codes "additional-ad")
    then codes "10 60 389 " ++ target zone (codes "additional-dc")
    else codes "10 60 8443 " ++ target zone (codes "additional-service")

-- {"ttl-normal": 60, "ttl-high": 86400}.get(key, 0)
abbrev address_ttl : Text → ℕ
address_ttl key =
    if is key (codes "ttl-normal") then 60 else if is key (codes "ttl-high") then 86400 else 0

-- The branches from `additional_addresses` to "mail", and those behind them.
unfoldable pub address_records : Text → Name → Text → Option (List Rrset)
unfolding eq_bytes mem_bytes address_keys service_records
address_records zone owner key =
    let ttl = address_ttl key in
    let v4_record = rr_at owner Rdtype.a ttl (codes "192.0.2.10" ∷ []) in
    let v6_record = rr_at owner Rdtype.aaaa ttl (codes "2001:db8::10" ∷ []) in
    if mem_bytes key additional_keys
    then some (
        rr_at owner Rdtype.a 0 ((codes "192.0.2." ++ additional_address key) ∷ [])
        ∷ rr_at owner Rdtype.aaaa 0 ((codes "2001:db8::" ++ additional_address key) ∷ [])
        ∷ [])
    else if is key (codes "additional-mx")
    then some
        (rr_at owner Rdtype.mx 0 ((codes "10 " ++ target zone (codes "additional-mail")) ∷ []) ∷ [])
    else if mem_bytes key additional_services
    then some (rr_at owner Rdtype.srv 0 (additional_service zone key ∷ []) ∷ [])
    else if mem_bytes key address_keys
    then some (
        v4_record
        ∷ (if mem_bytes key (codes "nodata" ∷ codes "unsupported" ∷ [])
            then []
            else v6_record ∷ []))
    else if is key (codes "aaaa")
    then some (rr_at owner Rdtype.aaaa 0 (codes "2001:db8::10" ∷ []) ∷ [])
    else if is key (codes "mail")
    then some (rr_at owner Rdtype.a 0 (codes "192.0.2.25" ∷ []) ∷ [])
    else service_records zone owner key

module _ (dns : Dnspython) where
  unfoldable pub apex_records : Text → Name → Outcome (Option (List Rrset))
  apex_records zone owner = do
    apex ← or_raise (dns.name_from_text zone)
    if dns.name_eq owner apex
        then (do
          start ← soa dns zone (inl zone) (target zone (codes "ns"))
          returned (some (start ∷ rr_at owner Rdtype.ns 0 (target zone (codes "ns") ∷ []) ∷ [])))
        else returned none

  -- The branch of "ns" and "soa".
  unfoldable pub server_records : Text → Name → Text → Outcome (Option (List Rrset))
  unfolding eq_bytes
  server_records zone owner key = do
    start ← soa dns zone (inr owner) (target zone (codes "ns"))
    returned (
        some (
          rr_at owner Rdtype.ns 0 (target zone (codes "ns") ∷ [])
          ∷ start
          ∷ (if is key (codes "ns")
              then rr_at owner Rdtype.a 0 (codes "192.0.2.53" ∷ []) ∷ []
              else [])))

  unfoldable pub child_records : Text → Name → Outcome (Option (List Rrset))
  child_records zone owner = do
    start ←
        soa dns (dns.name_to_text owner) (inl (dns.name_to_text owner))
          (target zone (codes "additional-ns-host"))
    returned (
        some (rr_at owner Rdtype.ns 0 (target zone (codes "additional-ns-host") ∷ []) ∷ start ∷ []))

  -- From the branch "apex" on.
  unfoldable pub node_records : Text → Name → Text → Outcome (Option (List Rrset))
  unfolding apex_records server_records child_records address_records aliases dname_keys eq_bytes
      mem_bytes
  node_records zone owner key =
      if is key (codes "apex")
      then apex_records zone owner
      else if mem_bytes key dname_keys
      then returned
          (some (rr_at owner Rdtype.dname 0 (target zone (codes "target-tree") ∷ []) ∷ []))
      else if mem_bytes key aliases
      then returned (some (rr_at owner Rdtype.cname 0 (target zone (alias_label key) ∷ []) ∷ []))
      else if mem_bytes key server_keys
      then server_records zone owner key
      else if is key (codes "additional-ns")
      then child_records zone owner
      else returned (address_records zone owner key)

  -- _records(owner, key, zone); `none` denotes a node that does not exist.
  unfoldable pub records : Text → Name → Text → Outcome (Option (List Rrset))
  unfolding node_records mem_bytes
  records zone owner key = do
    named ← or_raise (dns.name_from_text (target zone key))
    if not (dns.name_eq owner named) && not (mem_bytes key synthesized)
        then returned none
        else node_records zone owner key
