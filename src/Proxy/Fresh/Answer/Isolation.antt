-- ===== src/Proxy/Fresh/Answer/Isolation.antt =====
-- `_answer` of fault_proxy/fresh_fixtures.py stays in the zone of the query's nonce.
use dns_server_lan_fixtures.Prelude.{
  ℕ, zero, suc, ◌≡◌, refl, sym, ◌∙◌, inl, inr, true, not, ◌&&◌, some, [], Bytes, Text, codes,
  mem_bytes, and_left, ◌==◌, Option-cases,
}
use dns_server_lan_fixtures.Outcome.{
  Outcome, returned, raised, ◌>>=◌, not_returned, returned_injective,
}
use dns_server_lan_fixtures.Proxy.Fresh.Answer.{
  answer_round, answer_rounds, answer, after_round, authority_owner, authority_soa, or_raise,
  target, Round, key_round, lookup_round, referral_keys, finished, follow,
}
use dns_server_lan_fixtures.Proxy.Fresh.Answer.Starts.{
  Starts, IsPlainKey, member-IsPlainKey, soa-Starts, authority_owner-Holds, authority_soa-Starts,
}
use dns_server_lan_fixtures.Proxy.Fresh.Name.{name_key, zone_of, is_nonce}
use mathlib.Core.Path.{subst}
use dns_server_lan_fixtures.Proxy.Fresh.Name.Zone.{
  zone_labels, zone_of-parsed, zone_labels-InZone, InZone, fresh_name-InZone,
}
use dns_server_lan_fixtures.Proxy.Fresh.Records.{is, soa}
use dns_server_lan_fixtures.Proxy.Fresh.Sets.{dname_keys}
use dns_server_lan_fixtures.Proxy.Fresh.Node.{records}
use dns_server_lan_fixtures.Proxy.Fresh.Node.Owners.{records-AreOwned}
use dns_server_lan_fixtures.Proxy.Fresh.Node.Aliases.{records-HasOnlyAlias}
use dns_server_lan_fixtures.Proxy.Fresh.Answer.Inside.{IsInside, Inside}
use dns_server_lan_fixtures.Proxy.Fresh.Answer.Kept.{
  KeptIn, not_aa-Inside, Keeps, bind-Keeps, if-Keeps, started-Inside, coded-Inside,
}
use dns_server_lan_fixtures.Proxy.Fresh.Dns.{Name, Rrset, Message, Dnspython, NameLaws}
use dns_server_lan_fixtures.Proxy.Fresh.Rdtype
use dns_server_lan_fixtures.Proxy.Fresh.Name.Keys.{fresh_name, target_parsed}
use dns_server_lan_fixtures.Proxy.Fresh.Answer.Branches.{
  referral_plain, dname_plain, or_raised, refer-Keeps, substitute-Keeps, records_round-Keeps,
}

module _ (dns : Dnspython) (laws : NameLaws dns) (kind : ℕ) (nonce : Bytes)
    (valid : is_nonce nonce ≡ true) where
  -- The name of a plain key.
  cut_is :
      (key : Text) (cut : Name)
      → dns.name_from_text (target (zone_of nonce) key) ≡ some cut
      → IsPlainKey key
      → cut ≡ fresh_name key nonce
  cut_is key cut parsed plain =
      let same : some cut ≡ some (fresh_name key nonce) =
        sym parsed ∙ target_parsed dns laws key nonce plain.0 valid in
      cc

  zone_soa-Starts :
      Starts nonce
        (soa dns (zone_of nonce) (inl (zone_of nonce)) (target (zone_of nonce) (codes "ns")))
  zone_soa-Starts =
      soa-Starts dns nonce (zone_of nonce) (inl (zone_of nonce))
        (target (zone_of nonce) (codes "ns"))
        (
          zone_labels nonce,
          rw (zone_of-parsed dns laws nonce valid) refl,
          zone_labels-InZone nonce valid,
        )

  key_round-Keeps :
      (owner : Name) (key : Text) (start : Rrset) (m : Message)
      → Inside nonce m
      → InZone nonce owner
      → IsInside nonce start
      → Keeps nonce (key_round dns kind (zone_of nonce) owner key start m)
  unfolding key_round lookup_round
  key_round-Keeps owner key start m inside here own =
      let zone = zone_of nonce in
      let zone_start = zone_soa-Starts in
      bind-Keeps (or_raise (dns.name_from_text (target zone key))) _ (λ cut got.
        let cut_named = cut_is key cut (or_raised _ cut got) in
        if-Keeps (mem_bytes key referral_keys && not (dns.name_eq owner cut && kind == Rdtype.ds)) _
          _
          (λ member.
            let plain = member-IsPlainKey key referral_keys (and_left _ _ member) referral_plain in
            rw (cut_named plain) (refer-Keeps dns laws kind nonce valid key m plain inside))
          (λ _.
            if-Keeps (mem_bytes key referral_keys) _ _
              (λ _. bind-Keeps (soa dns zone (inl zone) (target zone (codes "ns"))) _ (λ r made.
                record { kept = started-Inside nonce m r inside (zone_start.inside r made) }))
              (λ _.
                if-Keeps (is key (codes "refused")) _ _
                  (λ _. record {
                    kept = coded-Inside nonce _ Rdtype.refused (not_aa-Inside nonce m inside);
                  })
                  (λ _.
                    if-Keeps (mem_bytes key dname_keys && not (dns.name_eq owner cut)) _ _
                      (λ below.
                        let plain =
                          member-IsPlainKey key dname_keys (and_left _ _ below) dname_plain in
                        substitute-Keeps dns laws kind nonce valid owner cut m inside here
                          (rw (cut_named plain) (fresh_name-InZone [] key nonce valid)))
                      (λ _.
                        records_round-Keeps dns laws kind nonce valid owner key start m
                          (records dns zone owner key) inside here own
                          (records-AreOwned dns laws nonce valid owner key)
                          (records-HasOnlyAlias dns zone owner key))))))

  answer_round-Keeps :
      (owner : Name) (m : Message)
      → Inside nonce m
      → InZone nonce owner
      → Keeps nonce (answer_round dns kind (zone_of nonce) m owner)
  unfolding answer_round
  answer_round-Keeps owner m inside here = elim (Option-cases (name_key owner)) [
    | inl no_key ↦ rw no_key (record { kept = inside })
    | inr ((key, n), found) ↦ rw found (
        bind-Keeps (authority_owner dns kind (zone_of nonce) owner key) _ (λ holder held.
          bind-Keeps (authority_soa dns kind (zone_of nonce) key holder) _ (λ start made.
            let held_by =
              (authority_owner-Holds dns laws kind nonce valid owner key).holder holder held in
            key_round-Keeps owner key start m inside here (
              (authority_soa-Starts dns laws kind nonce valid key holder held_by).inside start
                made))))
  ]

  after_round-Inside :
      (n : ℕ) (o : Outcome Round) (out : Message)
      → KeptIn nonce o
      → (o >>= after_round (answer_rounds dns kind (zone_of nonce) n)) ≡ returned out
      → Inside nonce out
  unfolding answer_rounds
  after_round-Inside n (raised e) out kept same = absurd (not_returned same)
  after_round-Inside n (returned (finished m)) out kept same =
      subst (Inside nonce) (returned_injective same) kept
  after_round-Inside zero (returned (follow m owner)) out (kept, there) same =
      subst (Inside nonce) (returned_injective same) (coded-Inside nonce m Rdtype.servfail kept)
  after_round-Inside (suc n) (returned (follow m owner)) out (kept, there) same =
      after_round-Inside n (answer_round dns kind (zone_of nonce) m owner) out
        ((answer_round-Keeps owner m kept there).kept) same

-- For every library that keeps the laws of names, every zone of a nonce and type of query: from a
-- response whose record sets are in the zone, `_answer` for a name in the zone returns, if it
-- returns, a response whose answers and authority are in the zone, and whose addresses are each in
-- the zone of a nonce.
pub answer-Inside :
    (dns : Dnspython) (laws : NameLaws dns) (kind : ℕ) (nonce : Bytes)
    → is_nonce nonce ≡ true
    → (m out : Message) (owner : Name) → Inside nonce m
    → InZone nonce owner
    → answer dns kind (zone_of nonce) m owner ≡ returned out
    → Inside nonce out
unfolding answer answer_rounds
answer-Inside dns laws kind nonce valid m out owner inside here same =
    after_round-Inside dns laws kind nonce valid 3 (answer_round dns kind (zone_of nonce) m owner)
      out ((answer_round-Keeps dns laws kind nonce valid owner m inside here).kept) same
