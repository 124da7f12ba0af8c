-- ===== src/Proxy/Fresh/Answer/Inside.antt =====
-- The record sets of a response of fault_proxy/fresh_fixtures.py and the zone of the query's nonce:
-- what `_additional` and the start of authority add.
use dns_server_lan_fixtures.Outcome.{
  not_returned, Outcome, returned, raised, ◌>>=◌, returned_injective,
}
use dns_server_lan_fixtures.Prelude.{
  not_true, ℕ, ◌≡◌, refl, inl, inr, Bool, true, false, not, ◌&&◌, ◌||◌, Option, none, some, List,
  [], ◌∷◌, Bytes, Text, All, All-append, and_left, ◌==◌, if◌then◌else◌, Bool-cases,
}
use dns_server_lan_fixtures.Proxy.Fresh.Name.{Key, is_nonce, zone_of, name_key}
use dns_server_lan_fixtures.Proxy.Fresh.Dns.{NameLaws, Name, Rrset, Message, Dnspython}
use dns_server_lan_fixtures.Proxy.Fresh.Name.Zone.{name_key-InZone, InZone}
use dns_server_lan_fixtures.Proxy.Fresh.Node.Owners.{records-AreOwned, AreOwned, IsOwned}
use dns_server_lan_fixtures.Proxy.Fresh.Node.{records}
use dns_server_lan_fixtures.Proxy.Fresh.Additional.{
  last_word, has_target, additional_of, additional_of_items, addresses_at, or_empty, append_address,
  append_addresses, mem_rrset,
}
use dns_server_lan_fixtures.Proxy.Fresh.Rdtype
use dns_server_lan_fixtures.Proxy.Fresh.Records.{or_raise, soa}

-- A set of records whose owner is in the zone, or in that of some nonce.
abbrev pub IsInside : Bytes → Rrset → Type 0
IsInside nonce r = InZone nonce r.owner

abbrev pub IsFresh : Rrset → Type 0
IsFresh r = (nonce : Bytes) × InZone nonce r.owner

-- Where the answers and the authority of a response are in the zone, and its addresses in some.
pub record Inside (nonce : Bytes) (m : Message) : Type 0 where
  pub answers : All (IsInside nonce) m.answer
  pub starts : All (IsInside nonce) m.authority
  pub addresses : All IsFresh m.additional

abbrev AddedIn : Outcome (List Rrset) → Type 0
AddedIn (raised e) = Unit
AddedIn (returned rs) = All IsFresh rs

pub record AddsFresh (o : Outcome (List Rrset)) : Type 0 where
  pub added : AddedIn o

bind-AddsFresh :
    {A : Type 0} (o : Outcome A) (rest : A → Outcome (List Rrset))
    → ((x : A) → o ≡ returned x → AddsFresh (rest x))
    → AddsFresh (o >>= rest)
bind-AddsFresh (raised e) rest all = record { added = tt }
bind-AddsFresh (returned x) rest all = all x refl

-- The rest of a loop over what a step returns.
then-AddsFresh :
    (o : Outcome (List Rrset)) (rest : List Rrset → Outcome (List Rrset))
    → AddsFresh o
    → ((x : List Rrset) → All IsFresh x → AddsFresh (rest x))
    → AddsFresh (o >>= rest)
then-AddsFresh (raised e) rest h all = record { added = tt }
then-AddsFresh (returned x) rest h all = all x (h.added)

no_address : (kind : ℕ) → kind ≡ Rdtype.soa → (kind == Rdtype.a || kind == Rdtype.aaaa) ≡ true → ⊥
no_address kind soa address = not_true (rw soa at address)

address_owner :
    (nonce : Bytes) (owner : Name) (r : Rrset)
    → IsOwned nonce owner r
    → (r.rdtype == Rdtype.a || r.rdtype == Rdtype.aaaa) ≡ true
    → r.owner ≡ owner
address_owner nonce owner r (inl same) address = same
address_owner nonce owner r (inr (kind, _)) address = absurd (no_address r.rdtype kind address)

append_address-IsFresh :
    (dns : Dnspython) (nonce : Bytes) (owner : Name) (additional : List Rrset) (r : Rrset)
    → (n : Bytes) × InZone n owner
    → All IsFresh additional
    → IsOwned nonce owner r
    → All IsFresh (append_address dns additional r)
unfolding append_address
append_address-IsFresh dns nonce owner additional r (n, inside) all owned =
    elim (Bool-cases
      ((r.rdtype == Rdtype.a || r.rdtype == Rdtype.aaaa) && not (mem_rrset dns r additional))) [
        | inl new ↦
            let same = address_owner nonce owner r owned (and_left _ _ new) in
            rw new (All-append IsFresh additional (r ∷ []) all ((n, rw same inside), tt))
        | inr old ↦ rw old all
      ]

append_addresses-IsFresh :
    (dns : Dnspython) (nonce : Bytes) (owner : Name) (additional rs : List Rrset)
    → (n : Bytes) × InZone n owner
    → All IsFresh additional
    → All (IsOwned nonce owner) rs
    → All IsFresh (append_addresses dns additional rs)
unfolding append_addresses
append_addresses-IsFresh dns nonce owner additional [] inside all owned = all
append_addresses-IsFresh dns nonce owner additional (r ∷ rs) inside all (own, owned) =
    append_addresses-IsFresh dns nonce owner (append_address dns additional r) rs inside
      (append_address-IsFresh dns nonce owner additional r inside all own) owned

pub IsOwned-at :
    {nonce : Bytes} {owner : Name} (o : Outcome (Option (List Rrset)))
    → AreOwned nonce owner o
    → (found : Option (List Rrset)) → o ≡ returned found
    → All (IsOwned nonce owner) (or_empty found)
IsOwned-at (raised e) owned found same = absurd (not_returned same)
IsOwned-at (returned rs) owned found same = rw (returned_injective same) at (owned.each)

module _ (dns : Dnspython) (laws : NameLaws dns) (nonce : Bytes)
    (valid : is_nonce nonce ≡ true) where
  addresses_at-AddsFresh :
      (owner : Name) (parsed : Option Key) (additional : List Rrset)
      → name_key owner ≡ parsed
      → All IsFresh additional
      → AddsFresh (addresses_at dns (zone_of nonce) owner parsed additional)
  addresses_at-AddsFresh owner none additional named all = record { added = all }
  addresses_at-AddsFresh owner (some (key, n)) additional named all =
      bind-AddsFresh (records dns (zone_of nonce) owner key) _ (λ found same. record {
        added =
            append_addresses-IsFresh dns nonce owner additional (or_empty found)
              (n, name_key-InZone owner key n named) all
              (IsOwned-at (records dns (zone_of nonce) owner key)
                (records-AreOwned dns laws nonce valid owner key) found same);
      })

  additional_of_items-AddsFresh :
      (items : List Text) (additional : List Rrset)
      → All IsFresh additional
      → AddsFresh (additional_of_items dns (zone_of nonce) items additional)
  unfolding additional_of_items
  additional_of_items-AddsFresh [] additional all = record { added = all }
  additional_of_items-AddsFresh (item ∷ items) additional all =
      bind-AddsFresh (or_raise (dns.name_from_text (last_word item))) _ (λ owner _.
        then-AddsFresh (addresses_at dns (zone_of nonce) owner (name_key owner) additional) _
          (addresses_at-AddsFresh owner (name_key owner) additional refl all)
          (λ more fresh. additional_of_items-AddsFresh items more fresh))

  kept-AddsFresh :
      (b : Bool) (items : List Text) (additional : List Rrset)
      → All IsFresh additional
      → AddsFresh (
          if b
          then additional_of_items dns (zone_of nonce) items additional
          else returned additional)
  kept-AddsFresh true items additional all = additional_of_items-AddsFresh items additional all
  kept-AddsFresh false items additional all = record { added = all }

  pub additional_of-AddsFresh :
      (rs additional : List Rrset)
      → All IsFresh additional
      → AddsFresh (additional_of dns (zone_of nonce) rs additional)
  unfolding additional_of
  additional_of-AddsFresh [] additional all = record { added = all }
  additional_of-AddsFresh (r ∷ rs) additional all =
      then-AddsFresh
        (if has_target r.rdtype
          then additional_of_items dns (zone_of nonce) r.items additional
          else returned additional)
        _ (kept-AddsFresh (has_target r.rdtype) r.items additional all)
        (λ more fresh. additional_of-AddsFresh rs more fresh)
