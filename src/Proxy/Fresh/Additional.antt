-- ===== src/Proxy/Fresh/Additional.antt =====
-- `_additional` of fault_proxy/fresh_fixtures.py.
use dns_server_lan_fixtures.Prelude.{
  ℕ, Bool, true, false, not, ◌&&◌, ◌||◌, Option, none, some, List, [], ◌∷◌, ◌++◌, Text, mem_bytes,
  ◌==◌, if◌then◌else◌,
}
use dns_server_lan_fixtures.Outcome.{Outcome, returned, ◌>>=◌}
use dns_server_lan_fixtures.Proxy.Fresh.Dns.{Name, Rrset, Dnspython}
use dns_server_lan_fixtures.Proxy.Fresh.Name.{Key, name_key}
use dns_server_lan_fixtures.Proxy.Fresh.Rdtype
use dns_server_lan_fixtures.Proxy.Fresh.Records.{or_raise}
use dns_server_lan_fixtures.Proxy.Fresh.Node.{records}

-- The last word of a text, with what was read of it. A name stands last in the data of NS, MX, SRV
-- and CNAME records, which dnspython parses when the record is made.
last_word_onto : Text → Text → Text
last_word_onto acc [] = acc
last_word_onto acc (c ∷ s) = last_word_onto (if c == b' ' then [] else acc ++ c ∷ []) s

unfoldable pub last_word : Text → Text
unfolding last_word_onto
last_word = last_word_onto []

all_in : List Text → List Text → Bool
unfolding mem_bytes
all_in [] ys = true
all_in (x ∷ xs) ys = mem_bytes x ys && all_in xs ys

-- `_records(…) or []`
abbrev pub or_empty : Option (List Rrset) → List Rrset
or_empty none = []
or_empty (some rs) = rs

abbrev pub has_target : ℕ → Bool
has_target kind = kind == Rdtype.ns || (kind == Rdtype.mx || kind == Rdtype.srv)

module _ (dns : Dnspython) where
  -- a == b, of sets of records of class IN
  unfoldable pub rrset_eq : Rrset → Rrset → Bool
  unfolding all_in
  rrset_eq a b =
      dns.name_eq a.owner b.owner
      && a.rdtype == b.rdtype
      && (all_in a.items b.items && all_in b.items a.items)

  -- rrset in rrsets
  unfoldable pub mem_rrset : Rrset → List Rrset → Bool
  unfolding rrset_eq
  mem_rrset r [] = false
  mem_rrset r (x ∷ xs) = rrset_eq r x || mem_rrset r xs

  -- The body of the loop over the addresses.
  unfoldable pub append_address : List Rrset → Rrset → List Rrset
  unfolding mem_rrset
  append_address additional r =
      if (r.rdtype == Rdtype.a || r.rdtype == Rdtype.aaaa) && not (mem_rrset r additional)
      then additional ++ r ∷ []
      else additional

  unfoldable pub append_addresses : List Rrset → List Rrset → List Rrset
  unfolding append_address
  append_addresses additional [] = additional
  append_addresses additional (r ∷ rs) = append_addresses (append_address additional r) rs

  abbrev pub addresses_at : Text → Name → Option Key → List Rrset → Outcome (List Rrset)
  addresses_at zone owner none additional = returned additional
  addresses_at zone owner (some (key, _)) additional = do
    found ← records dns zone owner key
    returned (append_addresses additional (or_empty found))

  -- The loop over the records of a set, each by its data.
  unfoldable pub additional_of_items : Text → List Text → List Rrset → Outcome (List Rrset)
  unfolding records append_addresses name_key last_word
  additional_of_items zone [] additional = returned additional
  additional_of_items zone (item ∷ items) additional = do
    owner ← or_raise (dns.name_from_text (last_word item))
    more ← addresses_at zone owner (name_key owner) additional
    additional_of_items zone items more

  -- _additional(response, records, zone), of `response.additional`
  unfoldable pub additional_of : Text → List Rrset → List Rrset → Outcome (List Rrset)
  unfolding additional_of_items
  additional_of zone [] additional = returned additional
  additional_of zone (r ∷ rs) additional = do
    more ←
        if has_target r.rdtype
        then additional_of_items zone r.items additional
        else returned additional
    additional_of zone rs more
