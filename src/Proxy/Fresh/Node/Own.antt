-- ===== src/Proxy/Fresh/Node/Own.antt =====
-- What the branches of `_records` of fault_proxy/fresh_fixtures.py behind the aliases return: sets
-- of records of the owner, none of them a CNAME.
use dns_server_lan_fixtures.Prelude.{
  ℕ, ◌≡◌, refl, Bool, true, false, not, ◌&&◌, ◌||◌, Option, none, some, List, [], ◌∷◌, ◌++◌, arith,
  Text, codes, eq_bytes, mem_bytes, take, All, and_left, and_right, ◌==◌, if◌then◌else◌,
}
use dns_server_lan_fixtures.Proxy.Fresh.Rdtype
use dns_server_lan_fixtures.Proxy.Fresh.Dns.{Name, Rrset}
use dns_server_lan_fixtures.Proxy.Fresh.Sets.{address_keys, is_srv_host}
use dns_server_lan_fixtures.Proxy.Fresh.Records.{
  Entry, values, found, large_records, service_records, is, text_keys, binding_keys, host_keys,
  service_keys,
}
use dns_server_lan_fixtures.Proxy.Fresh.Node.{additional_keys, additional_services, address_records}
use dns_server_lan_fixtures.Proxy.Fresh.Additional.{or_empty}
use dns_server_lan_fixtures.Proxy.Fresh.Answer.{find_cname}

abbrev pub IsOwn : Name → Rrset → Type 0
IsOwn owner r = (r.owner ≡ owner) × ((r.rdtype == Rdtype.cname) ≡ false)

-- The records of a node that may not exist.
pub record AreOwn (owner : Name) (rs : Option (List Rrset)) : Type 0 where
  pub each : All (IsOwn owner) (or_empty rs)

one : {owner : Name} {r : Rrset} → IsOwn owner r → AreOwn owner (some (r ∷ []))
one h = record { each = (h, tt) }

pair :
    {owner : Name} {r s : Rrset} → IsOwn owner r → IsOwn owner s → AreOwn owner (some (r ∷ s ∷ []))
pair h k = record { each = (h, (k, tt)) }

-- The branches of a test.
pub if-AreOwn :
    {owner : Name} (b : Bool) (x y : Option (List Rrset))
    → AreOwn owner x
    → AreOwn owner y
    → AreOwn owner (if b then x else y)
if-AreOwn true x y hx hy = hx
if-AreOwn false x y hx hy = hy

abbrev no_cname_entry : List Entry → Bool
no_cname_entry [] = true
no_cname_entry (e ∷ es) = not (e.rdtype == Rdtype.cname) && no_cname_entry es

not-cname : (n : ℕ) → not (n == Rdtype.cname) ≡ true → (n == Rdtype.cname) ≡ false
not-cname n other = ground arith

values-no_cname : (zone : Text) → no_cname_entry (values zone) ≡ true
unfolding values
values-no_cname zone = refl

found-AreOwn :
    (owner : Name) (key : Text) (es : List Entry)
    → no_cname_entry es ≡ true
    → AreOwn owner (found owner key es)
found-AreOwn owner key [] none_of = record { each = tt }
found-AreOwn owner key (e ∷ es) none_of =
    let other = found-AreOwn owner key es (and_right _ _ none_of) in
    let first = not-cname e.rdtype (and_left _ _ none_of) in
    if-AreOwn (is key e.key) _ _ (one (refl, first)) other

-- The two types of a binding.
binding : (b : Bool) → ((if b then Rdtype.https else Rdtype.svcb) == Rdtype.cname) ≡ false
binding true = refl
binding false = refl

large_records-AreOwn :
    (zone : Text) (owner : Name) (key : Text) → AreOwn owner (large_records zone owner key)
unfolding large_records
large_records-AreOwn zone owner key = if-AreOwn (mem_bytes key text_keys) _ _ (one (refl, refl)) (
    if-AreOwn (is key (codes "large-multi-a")) _ _ (one (refl, refl)) (
      if-AreOwn (is key (codes "large-multi-aaaa")) _ _ (one (refl, refl)) (
        if-AreOwn (is key (codes "large-srv")) _ _ (one (refl, refl)) (
          if-AreOwn (mem_bytes key service_keys) _ _ (one (refl, refl)) (
            if-AreOwn (mem_bytes key binding_keys) _ _
              (one (refl, binding (eq_bytes (take 5 key) (codes "https"))))
              (found-AreOwn owner key (values zone) (values-no_cname zone)))))))

-- The host's records, with those of "svc".
host-AreOwn :
    {owner : Name} (b : Bool) (a v6 svcb https : Rrset)
    → IsOwn owner a
    → IsOwn owner v6
    → IsOwn owner svcb
    → IsOwn owner https
    → AreOwn owner (some (if b then (a ∷ v6 ∷ []) ++ (svcb ∷ https ∷ []) else a ∷ v6 ∷ []))
host-AreOwn true a v6 svcb https h k l m = record { each = (h, (k, (l, (m, tt)))) }
host-AreOwn false a v6 svcb https h k l m = pair h k

service_records-AreOwn :
    (zone : Text) (owner : Name) (key : Text) → AreOwn owner (service_records zone owner key)
unfolding service_records
service_records-AreOwn zone owner key =
    if-AreOwn (mem_bytes key host_keys || is_srv_host key) _ _
      (host-AreOwn (is key (codes "svc")) _ _ _ _ (refl, refl) (refl, refl) (refl, refl)
        (refl, refl))
      (if-AreOwn (is key (codes "multi-a")) _ _ (one (refl, refl)) (
        if-AreOwn (is key (codes "multi-aaaa")) _ _ (one (refl, refl))
          (large_records-AreOwn zone owner key)))

-- An IPv4 record, and one that may follow it.
address-AreOwn :
    {owner : Name} (b : Bool) (a v6 : Rrset)
    → IsOwn owner a
    → IsOwn owner v6
    → AreOwn owner (some (a ∷ (if b then [] else v6 ∷ [])))
address-AreOwn true a v6 h k = one h
address-AreOwn false a v6 h k = pair h k

pub address_records-AreOwn :
    (zone : Text) (owner : Name) (key : Text) → AreOwn owner (address_records zone owner key)
unfolding address_records
address_records-AreOwn zone owner key =
    if-AreOwn (mem_bytes key additional_keys) _ _ (pair (refl, refl) (refl, refl)) (
      if-AreOwn (is key (codes "additional-mx")) _ _ (one (refl, refl)) (
        if-AreOwn (mem_bytes key additional_services) _ _ (one (refl, refl)) (
          if-AreOwn (mem_bytes key address_keys) _ _
            (address-AreOwn (mem_bytes key (codes "nodata" ∷ codes "unsupported" ∷ [])) _ _
              (refl, refl) (refl, refl))
            (if-AreOwn (is key (codes "aaaa")) _ _ (one (refl, refl)) (
              if-AreOwn (is key (codes "mail")) _ _ (one (refl, refl))
                (service_records-AreOwn zone owner key))))))

-- Such records have no CNAME to follow.
pub find_cname-IsOwn :
    (owner : Name) (rs : List Rrset) → All (IsOwn owner) rs → find_cname rs ≡ none
unfolding find_cname
find_cname-IsOwn owner [] own = refl
find_cname-IsOwn owner (r ∷ rs) ((_, other), own) = rw (other, find_cname-IsOwn owner rs own) refl
