-- ===== src/Proxy/Fresh/Answer/Rounds.antt =====
-- Where the rounds of `_answer` of fault_proxy/fresh_fixtures.py lead, and how many there are.
use dns_server_lan_fixtures.Prelude.{
  ℕ, ◌≡◌, refl, sym, ap, ◌∙◌, inl, inr, Bool, true, false, not, ◌&&◌, ◌||◌, Option, none, some,
  List, [], ◌∷◌, ◌++◌, arith, Bytes, Text, codes, lower, eq_bytes, mem_bytes, and_left, ◌==◌,
  if◌then◌else◌, Option-cases,
}
use dns_server_lan_fixtures.Outcome.{Outcome, returned, raised, ◌>>=◌}
use dns_server_lan_fixtures.Proxy.Query.{is_ascii}
use dns_server_lan_fixtures.Proxy.Fresh.Dns.{
  Name, Rrset, Message, Dnspython, NameLaws, IsPlainLabel,
}
use dns_server_lan_fixtures.Proxy.Fresh.Name.{name_key, zone_of, is_nonce}
use dns_server_lan_fixtures.Proxy.Fresh.Name.Keys.{name_key-fresh_name, fresh_name, target_parsed}
use dns_server_lan_fixtures.Proxy.Fresh.Rdtype
use dns_server_lan_fixtures.Proxy.Fresh.Records.{rr, or_raise, target, is, soa}
use dns_server_lan_fixtures.Proxy.Fresh.Sets.{aliases, dname_keys}
use dns_server_lan_fixtures.Proxy.Fresh.Node.{records, alias_label}
use dns_server_lan_fixtures.Proxy.Fresh.Additional.{additional_of}
use dns_server_lan_fixtures.Proxy.Fresh.Node.Aliases.{records-HasOnlyAlias, HasOnlyAlias, HasAlias}
use dns_server_lan_fixtures.Proxy.Fresh.Answer.Chains.{
  Follows-Within, Answered, Within, Follows, ends, bind-Follows, if-Follows,
}
use dns_server_lan_fixtures.Proxy.Fresh.Answer.{
  answer, referral_keys, authority_soa, authority_owner, refer, find_cname, lookup_round,
  substitute, answer_round, key_round, records_round, finished, follow, select, canonical_round,
  cname_round, selected_round,
}

label-IsPlainLabel : (b : Bool) → IsPlainLabel (if b then codes "chain-hop" else codes "a")
label-IsPlainLabel true = (refl, omega arith, omega arith)
label-IsPlainLabel false = (refl, omega arith, omega arith)

pub alias_label-IsPlainLabel : (key : Text) → IsPlainLabel (alias_label key)
alias_label-IsPlainLabel key = label-IsPlainLabel (is key (codes "cname-chain"))

module _ (dns : Dnspython) (laws : NameLaws dns) (kind : ℕ) (nonce : Bytes)
    (valid : is_nonce nonce ≡ true) where
  -- A condition on what a round with a key leads to.
  record Targets (P : Name → Type 0) (key : Text) : Type 0 where
    below :
        mem_bytes key dname_keys ≡ true
        → (front : Name) → P (front ++ fresh_name (codes "target-tree") nonce)
    alias : mem_bytes key aliases ≡ true → P (fresh_name (alias_label key) nonce)

  selected_round-Follows :
      {P : Name → Type 0} (start : Rrset) (m : Message) (found : List Rrset)
      → Follows P (selected_round dns kind (zone_of nonce) start m found)
  unfolding selected_round
  selected_round-Follows start m [] = ends _
  selected_round-Follows start m (r ∷ rs) =
      bind-Follows (additional_of dns (zone_of nonce) (r ∷ rs) m.additional) _ (λ more. ends _)

  alias_label-parsed :
      (key : Text)
      → dns.name_from_text (target (zone_of nonce) (alias_label key))
        ≡ some (fresh_name (alias_label key) nonce)
  alias_label-parsed key =
      target_parsed dns laws (alias_label key) nonce (alias_label-IsPlainLabel key) valid

  cname_round-Follows :
      {P : Name → Type 0} (owner : Name) (key : Text) (start : Rrset) (m : Message)
      (found : List Rrset) (cname : Option Rrset)
      → Targets P key
      → HasAlias (zone_of nonce) owner key cname
      → Follows P (cname_round dns kind (zone_of nonce) start m found cname)
  unfolding cname_round
  cname_round-Follows owner key start m found cname targets (inl same) =
      rw same (selected_round-Follows start m (select kind found))
  cname_round-Follows owner key start m found cname targets (inr (alias, same)) = rw same (
      if-Follows (kind == Rdtype.cname || kind == Rdtype.any) _ _ (λ _. ends _)
        (λ _. rw (alias_label-parsed key) (record { leads_to = targets.alias alias })))

  told-Follows :
      {P : Name → Type 0} (b : Bool) (m : Message) (c : Name)
      → P c
      → Follows P (returned (if b then finished m else follow m c))
  told-Follows true m c holds = ends m
  told-Follows false m c holds = record { leads_to = holds }

  canonical_round-Follows :
      {P : Name → Type 0} (key : Text) (owner front : Name) (m : Message) (canonical : Option Name)
      → ((c : Name) → canonical ≡ some c → c ≡ front ++ fresh_name (codes "target-tree") nonce)
      → mem_bytes key dname_keys ≡ true
      → Targets P key
      → Follows P (returned (canonical_round dns kind (zone_of nonce) owner m canonical))
  canonical_round-Follows key owner front m none joined dname targets = ends _
  canonical_round-Follows key owner front m (some c) joined dname targets =
      told-Follows (kind == Rdtype.cname) _ c (rw (joined c refl) (targets.below dname front))

  substitute-Follows :
      {P : Name → Type 0} (key : Text) (owner parent : Name) (m : Message)
      → mem_bytes key dname_keys ≡ true
      → Targets P key
      → Follows P (substitute dns kind (zone_of nonce) owner parent m)
  substitute-Follows key owner parent m dname targets =
      let parsed =
        target_parsed dns laws (codes "target-tree") nonce (refl, omega arith, omega arith) valid in
      let front = dns.relativize owner parent in
      rw parsed (
        canonical_round-Follows key owner front _ (dns.concatenate front _)
          (laws.concatenate_append front _) dname targets)

  records_round-Follows :
      {P : Name → Type 0} (owner : Name) (key : Text) (start : Rrset) (m : Message)
      (o : Outcome (Option (List Rrset)))
      → Targets P key
      → HasOnlyAlias (zone_of nonce) owner key o
      → Follows P (o >>= records_round dns kind (zone_of nonce) start m)
  unfolding records_round
  records_round-Follows owner key start m (raised e) targets only = record { leads_to = tt }
  records_round-Follows owner key start m (returned none) targets only = ends _
  records_round-Follows owner key start m (returned (some found)) targets only =
      cname_round-Follows owner key start m found (find_cname found) targets (only.alias_of)

  key_round-Follows :
      {P : Name → Type 0} (owner : Name) (key : Text) (start : Rrset) (m : Message)
      → Targets P key
      → Follows P (key_round dns kind (zone_of nonce) owner key start m)
  unfolding key_round lookup_round refer
  key_round-Follows owner key start m targets =
      let zone = zone_of nonce in
      bind-Follows (or_raise (dns.name_from_text (target zone key))) _ (λ cut.
        if-Follows (mem_bytes key referral_keys && not (dns.name_eq owner cut && kind == Rdtype.ds))
          _ _
          (λ _.
            bind-Follows (rr dns (inl (codes "ns." ++ dns.name_to_text cut)) Rdtype.a _) _ (λ glue.
              bind-Follows (rr dns (inl (codes "ns." ++ dns.name_to_text cut)) Rdtype.aaaa _) _
                (λ wide. ends _)))
          (λ _.
            if-Follows (mem_bytes key referral_keys) _ _
              (λ _.
                bind-Follows (soa dns zone (inl zone) (target zone (codes "ns"))) _ (λ own. ends _))
              (λ _.
                if-Follows (is key (codes "refused")) _ _ (λ _. ends _)
                  (λ _.
                    if-Follows (mem_bytes key dname_keys && not (dns.name_eq owner cut)) _ _
                      (λ below. substitute-Follows key owner cut m (and_left _ _ below) targets)
                      (λ _.
                        records_round-Follows owner key start m (records dns zone owner key) targets
                          (records-HasOnlyAlias dns zone owner key))))))

  answer_round-Follows :
      {P : Name → Type 0} (owner : Name) (m : Message)
      → ((key : Text) (n : Bytes) → name_key owner ≡ some (key, n) → Targets P key)
      → Follows P (answer_round dns kind (zone_of nonce) m owner)
  unfolding answer_round
  answer_round-Follows owner m targets = elim (Option-cases (name_key owner)) [
    | inl no_key ↦ rw no_key (ends m)
    | inr ((key, n), found) ↦ rw found (
        bind-Follows (authority_owner dns kind (zone_of nonce) owner key) _ (λ holder.
          bind-Follows (authority_soa dns kind (zone_of nonce) key holder) _
            (λ start. key_round-Follows owner key start m (targets key n found))))
  ]

  -- A key that is neither an alias nor the owner of a DNAME.
  no-Targets :
      {P : Name → Type 0} (key : Text)
      → mem_bytes key dname_keys ≡ false
      → mem_bytes key aliases ≡ false
      → Targets P key
  no-Targets key not_dname not_alias = record { below = λ dname front. cc; alias = λ alias. cc }

  -- The addresses that aliases lead to.
  end_label-Within :
      (front : List Bytes) (label : Text)
      → IsPlainLabel label
      → is_ascii label ≡ true
      → mem_bytes (lower label) dname_keys ≡ false
      → mem_bytes (lower label) aliases ≡ false
      → Within dns kind (zone_of nonce) 1 (front ++ fresh_name label nonce)
  end_label-Within front label plain ascii not_dname not_alias =
      Follows-Within dns kind (zone_of nonce) 0 _ (λ m.
        answer_round-Follows (front ++ fresh_name label nonce) m (λ key n found.
          let same : some (lower label, nonce) ≡ some (key, n) =
            sym (name_key-fresh_name front label nonce ascii valid) ∙ found in
          let key_eq : lower label ≡ key = cc in
          no-Targets key (sym (ap (λ k. mem_bytes k dname_keys) key_eq) ∙ not_dname)
            (sym (ap (λ k. mem_bytes k aliases) key_eq) ∙ not_alias)))

  a-Within : Within dns kind (zone_of nonce) 1 (fresh_name (codes "a") nonce)
  unfolding mem_bytes dname_keys aliases is_ascii
  a-Within = end_label-Within [] (codes "a") (refl, omega arith, omega arith) refl refl refl

  tree-Within :
      (front : List Bytes)
      → Within dns kind (zone_of nonce) 1 (front ++ fresh_name (codes "target-tree") nonce)
  unfolding mem_bytes dname_keys aliases is_ascii
  tree-Within front =
      end_label-Within front (codes "target-tree") (refl, omega arith, omega arith) refl refl refl

  hop-Within : Within dns kind (zone_of nonce) 2 (fresh_name (codes "chain-hop") nonce)
  unfolding mem_bytes dname_keys eq_bytes is_ascii
  hop-Within = Follows-Within dns kind (zone_of nonce) 1 _ (λ m.
      answer_round-Follows (fresh_name (codes "chain-hop") nonce) m (λ key n found.
        let same : some (codes "chain-hop", nonce) ≡ some (key, n) =
          sym (name_key-fresh_name [] (codes "chain-hop") nonce refl valid) ∙ found in
        let key_eq : codes "chain-hop" ≡ key = cc in
        rw (sym key_eq) (record { below = λ dname front. cc; alias = λ alias. a-Within })))

  -- Where an alias leads.
  label-Within :
      (b : Bool)
      → Within dns kind
          (zone_of nonce)
          2
          (fresh_name (if b then codes "chain-hop" else codes "a") nonce)
  label-Within true m n le = hop-Within m n le
  label-Within false m n le = a-Within m n (omega arith)

  any-Within : (owner : Name) → Within dns kind (zone_of nonce) 3 owner
  any-Within owner = Follows-Within dns kind (zone_of nonce) 2 owner (λ m.
      answer_round-Follows owner m (λ key n found. record {
        below = λ dname front m' n' le. tree-Within front m' n' (omega arith);
        alias = λ alias. label-Within (is key (codes "cname-chain"));
      }))

-- For every library that keeps the laws of names, every zone of a nonce, type of query, response and
-- owner, what `_answer` does is what the loop without its limit of four rounds does: the limit is
-- never met.
pub answer-Answered :
    (dns : Dnspython) (laws : NameLaws dns) (kind : ℕ) (nonce : Bytes)
    → is_nonce nonce ≡ true
    → (m : Message) (owner : Name)
    → Answered dns kind (zone_of nonce) m owner (answer dns kind (zone_of nonce) m owner)
unfolding answer
answer-Answered dns laws kind nonce valid m owner =
    any-Within dns laws kind nonce valid owner m 4 (omega arith)
