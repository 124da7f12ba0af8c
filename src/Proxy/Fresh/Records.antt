-- ===== src/Proxy/Fresh/Records.antt =====
-- `_rr`, `_soa` and `_records` of fault_proxy/fresh_fixtures.py: what exists at a name.
use dns_server_lan_fixtures.Prelude.{
  ℕ, ◌⊎◌, inl, inr, Bool, ◌||◌, Option, none, some, List, [], ◌∷◌, ◌++◌, Text, codes, eq_bytes,
  mem_bytes, take, if◌then◌else◌,
}
use dns_server_lan_fixtures.Outcome.{Outcome, returned, raised, uncaught, ◌>>=◌}
use dns_server_lan_fixtures.Proxy.Fresh.Dns.{Name, Rrset, Dnspython}
use dns_server_lan_fixtures.Proxy.Fresh.Rdtype
use dns_server_lan_fixtures.Proxy.Config.{decimal}
use dns_server_lan_fixtures.Proxy.Fresh.Security.{openpgpkey_text, smimea_text}
use dns_server_lan_fixtures.Proxy.Fresh.Sets.{repeat_text, spaced, hexadecimal, each, is_srv_host}

-- What the source passes for an owner: a text or a name.
abbrev pub Owner : Type 0
Owner = Text ⊎ Name

-- A `DNSException` that `answer_fresh` does not catch.
abbrev pub or_raise : {A : Type 0} → Option A → Outcome A
or_raise none = raised uncaught
or_raise (some x) = returned x

abbrev pub owner_name : Dnspython → Owner → Outcome Name
owner_name dns (inl text) = or_raise (dns.name_from_text text)
owner_name dns (inr name) = returned name

-- _rr(owner, kind, *items, ttl=ttl), of a name
abbrev pub rr_at : Name → ℕ → ℕ → List Text → Rrset
rr_at owner kind ttl items = record { owner = owner; rdtype = kind; ttl = ttl; items = items }

-- _rr(owner, kind, *items)
abbrev pub rr : Dnspython → Owner → ℕ → List Text → Outcome Rrset
rr dns owner kind items = do name ← owner_name dns owner; returned (rr_at name kind 0 items)

-- f"{label}.{zone}"
abbrev pub target : Text → Text → Text
target zone label = label ++ (b'.' ∷ zone)

-- _soa(zone, owner, primary), with `owner or zone` and `primary or 'ns.' + zone` given
abbrev pub soa : Dnspython → Text → Owner → Text → Outcome Rrset
soa dns zone owner primary =
    rr dns owner Rdtype.soa
      ((primary ++ (codes " hostmaster." ++ (zone ++ codes " 2026092101 60 60 3600 0"))) ∷ [])

abbrev pub is : Text → Text → Bool
is key name = eq_bytes key name

-- The families that synthesize descendant owners.
abbrev pub synthesized : List Text
synthesized =
    codes "apex"
    ∷ codes "wildcard"
    ∷ codes "long-label"
    ∷ codes "long-name"
    ∷ codes "target-tree"
    ∷ []

-- An entry of the dictionary `values`.
pub record Entry : Type 0 where
  pub key : Text
  pub rdtype : ℕ
  pub text : Text

abbrev entry : Text → ℕ → Text → Entry
entry key rdtype text = record { key = key; rdtype = rdtype; text = text }

unfoldable pub values : Text → List Entry
unfolding openpgpkey_text smimea_text repeat_text
values zone =
    entry (codes "mx") Rdtype.mx (codes "10 " ++ target zone (codes "mail"))
    ∷ entry (codes "txt") Rdtype.txt (codes "\"fresh DNS evidence fixture\"")
    ∷ entry (codes "ptr") Rdtype.ptr (target zone (codes "a"))
    ∷ entry (codes "ad-ptr") Rdtype.ptr (target zone (codes "a"))
    ∷ entry (codes "hinfo") Rdtype.hinfo (codes "\"x86_64\" \"test-fixture\"")
    ∷ entry (codes "rp") Rdtype.rp (codes "hostmaster." ++ (zone ++ (codes " contact." ++ zone)))
    ∷ entry (codes "contact") Rdtype.txt (codes "\"Fixture contact metadata\"")
    ∷ entry (codes "afsdb") Rdtype.afsdb (codes "1 " ++ target zone (codes "service"))
    ∷ entry (codes "loc") Rdtype.loc (codes "37 47 0.0 N 122 24 0.0 W 10m 1m 10000m 10m")
    ∷ entry (codes "naptr") Rdtype.naptr
        (codes "100 10 \"U\" \"E2U+sip\" \"!^.*$!sip:test@example.invalid!\" .")
    ∷ entry (codes "cert") Rdtype.cert (codes "65280 0 0 AQIDBA==")
    ∷ entry (codes "sshfp") Rdtype.sshfp (codes "1 1 123456789abcdef67890123456789abcdef67890")
    ∷ entry (codes "tlsa") Rdtype.tlsa (codes "3 1 1 " ++ repeat_text 32 (codes "01"))
    ∷ entry (codes "openpgpkey") Rdtype.openpgpkey (openpgpkey_text)
    ∷ entry (codes "smimea") Rdtype.smimea (smimea_text)
    ∷ entry (codes "uri") Rdtype.uri (codes "10 1 \"https://example.invalid/fixture\"")
    ∷ entry (codes "caa") Rdtype.caa (codes "0 issue \"ca.invalid\"")
    ∷ entry (codes "unknown") Rdtype.type65280 (codes "\\# 4 DEADBEEF")
    ∷ []

-- `if key in values`
abbrev pub found : Name → Text → List Entry → Option (List Rrset)
found owner key [] = none
found owner key (e ∷ es) =
    if is key e.key then some (rr_at owner e.rdtype 0 (e.text ∷ []) ∷ []) else found owner key es

abbrev pub text_keys : List Text
text_keys = codes "large-512" ∷ codes "large-1232" ∷ codes "near-max" ∷ []

abbrev pub binding_keys : List Text
binding_keys = codes "https" ∷ codes "svcb" ∷ codes "https-alias" ∷ codes "svcb-alias" ∷ []

abbrev pub host_keys : List Text
host_keys = codes "service" ∷ codes "svc" ∷ codes "target-tree" ∷ []

abbrev pub service_keys : List Text
service_keys =
    codes "srv"
    ∷ codes "ad-ldap"
    ∷ codes "ad-site"
    ∷ codes "ad-pdc"
    ∷ codes "ad-kerberos"
    ∷ codes "ad-kpasswd"
    ∷ codes "ad-gc"
    ∷ []

abbrev service_port : Text → Text
service_port key =
    if mem_bytes key (codes "ad-ldap" ∷ codes "ad-site" ∷ codes "ad-pdc" ∷ [])
    then codes "389"
    else if is key (codes "ad-kerberos")
    then codes "88"
    else if is key (codes "ad-kpasswd")
    then codes "464"
    else if is key (codes "ad-gc")
    then codes "3268"
    else codes "8443"

-- The data of "https", "svcb" and their aliases.
abbrev binding_text : Text → Text → Text
binding_text zone key =
    if mem_bytes key (codes "https-alias" ∷ codes "svcb-alias" ∷ [])
    then codes "0 " ++ target zone (codes "svc")
    else codes "1 "
      ++ (target zone (codes "svc")
          ++ codes " alpn=\"h2,h3\" port=8443 ipv4hint=192.0.2.40 ipv6hint=2001:db8::40")

-- The branches from "large-512" on.
unfoldable pub large_records : Text → Name → Text → Option (List Rrset)
unfolding eq_bytes mem_bytes values repeat_text spaced hexadecimal each decimal
large_records zone owner key =
    if mem_bytes key text_keys
    then some (
        rr_at owner Rdtype.txt 0 (
          spaced
            (if is key (codes "large-512")
              then 4
              else if is key (codes "large-1232")
              then 7
              else 240)
            (codes "\"" ++ (repeat_text 250 (codes "x") ++ codes "\""))
          ∷ [])
        ∷ [])
    else if is key (codes "large-multi-a")
    then some (rr_at owner Rdtype.a 0 (each 128 1 (λ i. codes "192.0.2." ++ decimal i)) ∷ [])
    else if is key (codes "large-multi-aaaa")
    then some
        (rr_at owner Rdtype.aaaa 0 (each 128 1 (λ i. codes "2001:db8::" ++ hexadecimal i)) ∷ [])
    else if is key (codes "large-srv")
    then some (
        rr_at owner Rdtype.srv 0 (
          each 64 1 (λ i.
            codes "10 "
            ++ (decimal i ++ (codes " 8443 " ++ target zone (codes "srv-" ++ decimal i)))))
        ∷ [])
    else if mem_bytes key service_keys
    then some (
        rr_at owner Rdtype.srv 0
          ((codes "10 60 " ++ (service_port key ++ (b' ' ∷ target zone (codes "service")))) ∷ [])
        ∷ [])
    else if mem_bytes key binding_keys
    then some (
        rr_at owner (if eq_bytes (take 5 key) (codes "https") then Rdtype.https else Rdtype.svcb) 0
          (binding_text zone key ∷ [])
        ∷ [])
    else found owner key (values zone)

abbrev svc_text : Text
svc_text = codes "1 . alpn=\"h2,h3\" port=8443 ipv4hint=192.0.2.40 ipv6hint=2001:db8::40"

-- The branches from "service" on.
unfoldable pub service_records : Text → Name → Text → Option (List Rrset)
unfolding eq_bytes mem_bytes large_records is_srv_host
service_records zone owner key =
    let address = if is key (codes "target-tree") then codes "30" else codes "40" in
    let addresses : List Rrset =
      rr_at owner Rdtype.a 0 ((codes "192.0.2." ++ address) ∷ [])
      ∷ rr_at owner Rdtype.aaaa 0 ((codes "2001:db8::" ++ address) ∷ [])
      ∷ [] in
    if mem_bytes key host_keys || is_srv_host key
    then some (
        if is key (codes "svc")
        then addresses
          ++ (rr_at owner Rdtype.svcb 0 (svc_text ∷ [])
              ∷ rr_at owner Rdtype.https 0 (svc_text ∷ [])
              ∷ [])
        else addresses)
    else if is key (codes "multi-a")
    then some (rr_at owner Rdtype.a 0 (codes "192.0.2.10" ∷ codes "192.0.2.11" ∷ []) ∷ [])
    else if is key (codes "multi-aaaa")
    then some (rr_at owner Rdtype.aaaa 0 (codes "2001:db8::10" ∷ codes "2001:db8::11" ∷ []) ∷ [])
    else large_records zone owner key
