-- ===== src/Proxy/Fresh/Answer.antt =====
-- `_answer` of fault_proxy/fresh_fixtures.py: one round of its loop, and the loop.
pub mod Chains
pub mod Rounds
pub mod Inside
pub mod Starts
pub mod Kept
pub mod Branches
pub mod Isolation
use dns_server_lan_fixtures.Prelude.{
  ℕ, zero, suc, inl, inr, false, not, ◌&&◌, ◌||◌, Option, none, some, List, [], ◌∷◌, ◌++◌, Text,
  codes, eq_bytes, mem_bytes, take, ◌==◌, if◌then◌else◌,
}
use dns_server_lan_fixtures.Outcome.{Outcome, returned, ◌>>=◌}
use dns_server_lan_fixtures.Proxy.Fresh.Name.{Key, name_key}
use dns_server_lan_fixtures.Proxy.Fresh.Sets.{dname_keys}
use dns_server_lan_fixtures.Proxy.Fresh.Node.{records}
use dns_server_lan_fixtures.Proxy.Fresh.Additional.{additional_of}
use dns_server_lan_fixtures.Proxy.Fresh.Dns.{Name, Rrset, Message, Dnspython}
use dns_server_lan_fixtures.Proxy.Fresh.Rdtype
use dns_server_lan_fixtures.Proxy.Fresh.Records.{Owner, or_raise, rr_at, rr, soa, target, is}

-- What a round leads to: `return`, or the next round with another owner.
pub data Round : Type 0 where
  finished : Message → Round
  follow : Message → Name → Round

abbrev pub with_answer : Message → List Rrset → Message
with_answer m rs = record m { answer = m.answer ++ rs }

abbrev pub with_authority : Message → Rrset → Message
with_authority m r = record m { authority = m.authority ++ r ∷ [] }

-- `response.flags &= ~dns.flags.AA`
abbrev pub not_authoritative : Message → Message
not_authoritative m = record m { flags = record (m.flags) { aa = false } }

abbrev pub with_rcode : Message → ℕ → Message
with_rcode m code = record m { rcode = code }

-- The first CNAME of the records.
unfoldable pub find_cname : List Rrset → Option Rrset
find_cname [] = none
find_cname (r ∷ rs) = if r.rdtype == Rdtype.cname then some r else find_cname rs

-- [rr for rr in records if rr.rdtype == kind]
unfoldable pub of_type : ℕ → List Rrset → List Rrset
of_type kind [] = []
of_type kind (r ∷ rs) = if r.rdtype == kind then r ∷ of_type kind rs else of_type kind rs

unfoldable pub select : ℕ → List Rrset → List Rrset
unfolding of_type
select kind rs = if kind == Rdtype.any then take 1 rs else of_type kind rs

abbrev first_item : List Text → Text
first_item [] = []
first_item (x ∷ xs) = x

-- What is left of the loop behind a round.
abbrev pub after_round : (Message → Name → Outcome Message) → Round → Outcome Message
after_round loop (finished m) = returned m
after_round loop (follow m owner) = loop m owner

abbrev pub referral_keys : List Text
referral_keys = codes "referral" ∷ codes "additional-referral" ∷ []

module _ (dns : Dnspython) (kind : ℕ) (zone : Text) where
  -- `authority_owner`
  abbrev pub authority_owner : Name → Text → Outcome Owner
  authority_owner owner key =
      if mem_bytes key (codes "ns" ∷ codes "soa" ∷ codes "additional-ns" ∷ [])
      then (do
        child ← or_raise (dns.name_from_text (target zone key))
        returned (
            if not (dns.name_eq owner child) || not (kind == Rdtype.ds)
            then inr child
            else inl zone))
      else returned (inl zone)

  -- str(authority_owner)
  abbrev pub owner_text : Owner → Text
  owner_text (inl text) = text
  owner_text (inr name) = dns.name_to_text name

  -- `authority_soa`
  abbrev pub authority_soa : Text → Owner → Outcome Rrset
  authority_soa key owner =
      if is key (codes "additional-ns") && not (eq_bytes (owner_text owner) zone)
      then soa dns (owner_text owner) (inl (owner_text owner))
          (target zone (codes "additional-ns-host"))
      else soa dns zone owner (target zone (codes "ns"))

  -- The referral from the cut.
  unfoldable pub refer : Text → Name → Message → Outcome Round
  unfolding eq_bytes
  refer key cut m = do
    let server = codes "ns." ++ dns.name_to_text cut
    glue ← rr dns (inl server) Rdtype.a (codes "192.0.2.53" ∷ [])
    wide ← rr dns (inl server) Rdtype.aaaa (codes "2001:db8::53" ∷ [])
    let more = if is key (codes "additional-referral") then glue ∷ wide ∷ [] else glue ∷ []
    let delegated = with_authority (not_authoritative m) (rr_at cut Rdtype.ns 0 (server ∷ []))
    returned (finished (record delegated { additional = m.additional ++ more }))

  -- Behind `concatenate`; `none` is `NameTooLong`.
  abbrev pub canonical_round : Name → Message → Option Name → Round
  canonical_round owner m none = finished (with_rcode m Rdtype.yxdomain)
  canonical_round owner m (some canonical) =
      let told =
        with_answer m (rr_at owner Rdtype.cname 0 (dns.name_to_text canonical ∷ []) ∷ []) in
      if kind == Rdtype.cname then finished told else follow told canonical

  -- The branch of `DNAME_KEYS` below the owner of the DNAME.
  abbrev pub substitute : Name → Name → Message → Outcome Round
  substitute owner parent m = do
    replacement ← or_raise (dns.name_from_text (target zone (codes "target-tree")))
    let told = with_answer m (rr_at parent Rdtype.dname 0 (dns.name_to_text replacement ∷ []) ∷ [])
    returned
        (canonical_round owner told (dns.concatenate (dns.relativize owner parent) replacement))

  -- `if cname is not None`, and what follows.
  unfoldable pub selected_round : Rrset → Message → List Rrset → Outcome Round
  unfolding additional_of
  selected_round start m [] = returned (finished (with_authority m start))
  selected_round start m (r ∷ rs) = do
    more ← additional_of dns zone (r ∷ rs) m.additional
    returned (finished (record (with_answer m (r ∷ rs)) { additional = more }))

  unfoldable pub cname_round : Rrset → Message → List Rrset → Option Rrset → Outcome Round
  unfolding select selected_round
  cname_round start m found none = selected_round start m (select kind found)
  cname_round start m found (some cname) =
      if kind == Rdtype.cname || kind == Rdtype.any
      then returned (finished (with_answer m (cname ∷ [])))
      else (do
        next ← or_raise (dns.name_from_text (first_item cname.items))
        returned (follow (with_answer m (cname ∷ [])) next))

  -- Behind `records = _records(owner, key, zone)`.
  unfoldable pub records_round : Rrset → Message → Option (List Rrset) → Outcome Round
  unfolding find_cname cname_round
  records_round start m none =
      returned (finished (with_authority (with_rcode m Rdtype.nxdomain) start))
  records_round start m (some found) = cname_round start m found (find_cname found)

  unfoldable pub lookup_round : Name → Text → Rrset → Message → Outcome Round
  unfolding records records_round
  lookup_round owner key start m = do
    found ← records dns zone owner key
    records_round start m found

  -- From `cut` on.
  unfoldable pub key_round : Name → Text → Rrset → Message → Outcome Round
  unfolding refer mem_bytes eq_bytes dname_keys lookup_round
  key_round owner key start m = do
    cut ← or_raise (dns.name_from_text (target zone key))
    if mem_bytes key referral_keys && not (dns.name_eq owner cut && kind == Rdtype.ds)
        then refer key cut m
        else if mem_bytes key referral_keys
        then (do
          own ← soa dns zone (inl zone) (target zone (codes "ns"))
          returned (finished (with_authority m own)))
        else if is key (codes "refused")
        then returned (finished (with_rcode (not_authoritative m) Rdtype.refused))
        else if mem_bytes key dname_keys && not (dns.name_eq owner cut)
        then substitute owner cut m
        else lookup_round owner key start m

  -- The body of the loop, behind `_name_key(owner)`.
  abbrev pub owner_round : Message → Name → Option Key → Outcome Round
  owner_round m owner none = returned (finished m)
  owner_round m owner (some (key, _)) = do
    holder ← authority_owner owner key
    start ← authority_soa key holder
    key_round owner key start m

  unfoldable pub answer_round : Message → Name → Outcome Round
  unfolding name_key key_round mem_bytes eq_bytes
  answer_round m owner = owner_round m owner (name_key owner)

  unfoldable pub answer_rounds : ℕ → Message → Name → Outcome Message
  unfolding answer_round
  answer_rounds zero m owner = returned (with_rcode m Rdtype.servfail)
  answer_rounds (suc n) m owner = answer_round m owner >>= after_round (answer_rounds n)

  -- _answer(response, owner, kind, zone)
  unfoldable pub answer : Message → Name → Outcome Message
  unfolding answer_rounds
  answer = answer_rounds 4
