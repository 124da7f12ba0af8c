-- ===== src/Proxy/Fresh/Answer/Branches.antt =====
-- The branches of a round of `_answer` of fault_proxy/fresh_fixtures.py keep to the zone of the
-- query's nonce.
use dns_server_lan_fixtures.Prelude.{
  ℕ, ◌≡◌, refl, inl, inr, Bool, true, false, ◌||◌, Option, none, some, List, [], ◌∷◌, ◌++◌, arith,
  Bytes, Text, codes, All, All-append, ◌==◌, if◌then◌else◌,
}
use dns_server_lan_fixtures.Outcome.{
  Outcome, returned, raised, ◌>>=◌, not_returned, returned_injective,
}
use dns_server_lan_fixtures.Proxy.Fresh.Answer.{
  or_raise, refer, referral_keys, with_authority, not_authoritative, finished, follow, find_cname,
  select, substitute, canonical_round, records_round, cname_round, selected_round,
}
use dns_server_lan_fixtures.Proxy.Fresh.Answer.Starts.{IsPlainKey}
use dns_server_lan_fixtures.Proxy.Fresh.Name.{zone_of, is_nonce}
use dns_server_lan_fixtures.Proxy.Fresh.Name.Zone.{server_parsed, InZone, fresh_name-InZone}
use dns_server_lan_fixtures.Proxy.Fresh.Records.{rr_at, is}
use dns_server_lan_fixtures.Proxy.Fresh.Sets.{dname_keys}
use dns_server_lan_fixtures.Proxy.Fresh.Node.{alias_label}
use dns_server_lan_fixtures.Proxy.Fresh.Node.Owners.{AreOwned}
use dns_server_lan_fixtures.Proxy.Fresh.Node.Aliases.{alias_rr, HasAlias, HasOnlyAlias}
use dns_server_lan_fixtures.Proxy.Fresh.Answer.Inside.{
  IsFresh, IsInside, Inside, AddsFresh, additional_of-AddsFresh,
}
use dns_server_lan_fixtures.Proxy.Fresh.Answer.Kept.{
  not_aa-Inside, Keeps, bind-Keeps, if-Keeps, select-All, owned-IsInside, answered-Inside,
  started-Inside, coded-Inside,
}
use dns_server_lan_fixtures.Proxy.Fresh.Dns.{Name, Rrset, Message, Dnspython, NameLaws}
use dns_server_lan_fixtures.Proxy.Fresh.Rdtype
use dns_server_lan_fixtures.Proxy.Fresh.Name.Keys.{fresh_name, target_parsed}
use dns_server_lan_fixtures.Proxy.Fresh.Additional.{additional_of}
use dns_server_lan_fixtures.Proxy.Fresh.Answer.Rounds.{alias_label-IsPlainLabel}

pub referral_plain : All IsPlainKey referral_keys
referral_plain =
    (((refl, omega arith, omega arith), refl), (((refl, omega arith, omega arith), refl), tt))

pub dname_plain : All IsPlainKey dname_keys
unfolding dname_keys
dname_plain =
    (((refl, omega arith, omega arith), refl), (((refl, omega arith, omega arith), refl), tt))

pub or_raised : (o : Option Name) (name : Name) → or_raise o ≡ returned name → o ≡ some name
or_raised none name same = cc
or_raised (some x) name same = cc

added_at :
    (o : Outcome (List Rrset)) (more : List Rrset)
    → AddsFresh o
    → o ≡ returned more
    → All IsFresh more
added_at (raised e) more adds same = absurd (not_returned same)
added_at (returned rs) more adds same = rw (returned_injective same) at (adds.added)

module _ (dns : Dnspython) (laws : NameLaws dns) (kind : ℕ) (nonce : Bytes)
    (valid : is_nonce nonce ≡ true) where
  selected_round-Keeps :
      (start : Rrset) (m : Message) (found : List Rrset)
      → Inside nonce m
      → IsInside nonce start
      → All (IsInside nonce) found
      → Keeps nonce (selected_round dns kind (zone_of nonce) start m found)
  unfolding selected_round
  selected_round-Keeps start m [] inside own all = record {
    kept = started-Inside nonce m start inside own;
  }
  selected_round-Keeps start m (r ∷ rs) inside own all =
      bind-Keeps (additional_of dns (zone_of nonce) (r ∷ rs) m.additional) _ (λ more same.
        let adds =
          additional_of-AddsFresh dns laws nonce valid (r ∷ rs) m.additional inside.addresses in
        let answered = answered-Inside nonce m (r ∷ rs) inside all in
        record {
          kept = record {
            answers = answered.answers;
            starts = answered.starts;
            addresses = added_at _ more adds same;
          };
        })

  cname_round-Keeps :
      (owner : Name) (key : Text) (start : Rrset) (m : Message) (found : List Rrset)
      (cname : Option Rrset)
      → Inside nonce m
      → InZone nonce owner
      → IsInside nonce start
      → All (IsInside nonce) found
      → HasAlias (zone_of nonce) owner key cname
      → Keeps nonce (cname_round dns kind (zone_of nonce) start m found cname)
  unfolding cname_round
  cname_round-Keeps owner key start m found cname inside here own all (inl same) = rw same (
      selected_round-Keeps start m (select kind found) inside own
        (select-All (IsInside nonce) kind found all))
  cname_round-Keeps owner key start m found cname inside here own all (inr (_, same)) =
      let label = alias_label key in
      let parsed = target_parsed dns laws label nonce (alias_label-IsPlainLabel key) valid in
      let told =
        answered-Inside nonce m (alias_rr (zone_of nonce) owner key ∷ []) inside (here, tt) in
      rw same (
        if-Keeps (kind == Rdtype.cname || kind == Rdtype.any) _ _ (λ _. record { kept = told })
          (λ _. rw parsed (record { kept = (told, fresh_name-InZone [] label nonce valid) })))

  pub records_round-Keeps :
      (owner : Name) (key : Text) (start : Rrset) (m : Message) (o : Outcome (Option (List Rrset)))
      → Inside nonce m
      → InZone nonce owner
      → IsInside nonce start
      → AreOwned nonce owner o
      → HasOnlyAlias (zone_of nonce) owner key o
      → Keeps nonce (o >>= records_round dns kind (zone_of nonce) start m)
  unfolding records_round
  records_round-Keeps owner key start m (raised e) inside here own owned only = record { kept = tt }
  records_round-Keeps owner key start m (returned none) inside here own owned only = record {
    kept = started-Inside nonce _ start (coded-Inside nonce m Rdtype.nxdomain inside) own;
  }
  records_round-Keeps owner key start m (returned (some found)) inside here own owned only =
      cname_round-Keeps owner key start m found (find_cname found) inside here own
        (owned-IsInside nonce owner found here (owned.each)) (only.alias_of)

  told-Keeps :
      (b : Bool) (m : Message) (c : Name)
      → Inside nonce m
      → InZone nonce c
      → Keeps nonce (returned (if b then finished m else follow m c))
  told-Keeps true m c inside there = record { kept = inside }
  told-Keeps false m c inside there = record { kept = (inside, there) }

  canonical_round-Keeps :
      (owner front : Name) (m : Message) (canonical : Option Name)
      → ((c : Name) → canonical ≡ some c → c ≡ front ++ fresh_name (codes "target-tree") nonce)
      → Inside nonce m
      → InZone nonce owner
      → Keeps nonce (returned (canonical_round dns kind (zone_of nonce) owner m canonical))
  canonical_round-Keeps owner front m none joined inside here = record {
    kept = coded-Inside nonce m Rdtype.yxdomain inside;
  }
  canonical_round-Keeps owner front m (some c) joined inside here =
      told-Keeps (kind == Rdtype.cname) _ c (answered-Inside nonce m _ inside (here, tt))
        (rw (joined c refl) (fresh_name-InZone front (codes "target-tree") nonce valid))

  pub substitute-Keeps :
      (owner parent : Name) (m : Message)
      → Inside nonce m
      → InZone nonce owner
      → InZone nonce parent
      → Keeps nonce (substitute dns kind (zone_of nonce) owner parent m)
  substitute-Keeps owner parent m inside here there =
      let parsed =
        target_parsed dns laws (codes "target-tree") nonce (refl, omega arith, omega arith) valid in
      let front = dns.relativize owner parent in
      rw parsed (
        canonical_round-Keeps owner front _ (dns.concatenate front _)
          (laws.concatenate_append front _) (answered-Inside nonce m _ inside (there, tt)) here)

  referred-Keeps :
      (b : Bool) (m : Message) (cut server : Name) (text : Text)
      → Inside nonce m
      → InZone nonce cut
      → InZone nonce server
      → Inside nonce
          (record (with_authority (not_authoritative m) (rr_at cut Rdtype.ns 0 (text ∷ []))) {
            additional =
                m.additional
                ++ (if b
                    then rr_at server Rdtype.a 0 (codes "192.0.2.53" ∷ [])
                      ∷ rr_at server Rdtype.aaaa 0 (codes "2001:db8::53" ∷ [])
                      ∷ []
                    else rr_at server Rdtype.a 0 (codes "192.0.2.53" ∷ []) ∷ []);
          })
  referred-Keeps true m cut server text inside here there =
      let told = started-Inside nonce (not_authoritative m) _ (not_aa-Inside nonce m inside) here in
      record {
        answers = told.answers;
        starts = told.starts;
        addresses =
            All-append IsFresh m.additional _ inside.addresses
              ((nonce, there), ((nonce, there), tt));
      }
  referred-Keeps false m cut server text inside here there =
      let told = started-Inside nonce (not_authoritative m) _ (not_aa-Inside nonce m inside) here in
      record {
        answers = told.answers;
        starts = told.starts;
        addresses = All-append IsFresh m.additional _ inside.addresses ((nonce, there), tt);
      }

  pub refer-Keeps :
      (key : Text) (m : Message)
      → IsPlainKey key
      → Inside nonce m
      → Keeps nonce (refer dns kind (zone_of nonce) key (fresh_name key nonce) m)
  unfolding refer
  refer-Keeps key m plain inside =
      let parsed = server_parsed dns laws key nonce plain.0 valid in
      rw parsed (record {
        kept =
            referred-Keeps (is key (codes "additional-referral")) m (fresh_name key nonce)
              (codes "ns" ∷ fresh_name key nonce) _ inside (fresh_name-InZone [] key nonce valid)
              (fresh_name-InZone (codes "ns" ∷ []) key nonce valid);
      })
