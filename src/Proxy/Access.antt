-- ===== src/Proxy/Access.antt =====
-- Who may ask: `_allowed_clients`, `LOOPBACK_CLIENTS` and `verify_request` of
-- fault_proxy/dns_fault_proxy.py, with the parts of the module `ipaddress` that they use.
-- `ip_network` is its parser of one item, without the spaces around it.
pub mod Allowed
use dns_server_lan_fixtures.Prelude.{
  ℕ, ◌-◌, ◌/◌, ◌%◌, ◌^◌, Bool, false, ◌&&◌, ◌||◌, Option, none, some, List, [], ◌∷◌, ◌++◌, map,
  Text, leb, ◌==◌, if◌then◌else◌,
}

pub data Address : Type 0 where
  v4 : ℕ → Address
  v6 : ℕ → Address

-- An address of the network, and the length of its prefix.
pub record Network : Type 0 where
  pub base : Address
  pub prefix_length : ℕ

-- Two numbers of `width` bits agree in the first `n`.
abbrev pub same_prefix : ℕ → ℕ → ℕ → ℕ → Bool
same_prefix width n a b = a / 2 ^ (width - n) == b / 2 ^ (width - n)

-- address in network
unfoldable pub contains : Network → Address → Bool
contains network address = elim network.base [
  | v4 b ↦ elim address [ v4 a ↦ same_prefix 32 network.prefix_length a b | v6 a ↦ false ]
  | v6 b ↦ elim address [ v4 a ↦ false | v6 a ↦ same_prefix 128 network.prefix_length a b ]
]

-- `if isinstance(address, IPv6Address) and address.ipv4_mapped: address = address.ipv4_mapped`
unfoldable pub unmapped : Address → Address
unmapped (v4 a) = v4 a
unmapped (v6 a) = if a / 2 ^ 32 == 0xFFFF then v4 (a % 2 ^ 32) else v6 a

-- 127.0.0.1/32 and ::1/128
abbrev pub loopback_clients : List Network
loopback_clients =
    record { base = v4 0x7F000001; prefix_length = 32 }
    ∷ record { base = v6 1; prefix_length = 128 }
    ∷ []

unfoldable pub any_contains : List Network → Address → Bool
unfolding contains
any_contains [] address = false
any_contains (n ∷ ns) address = contains n address || any_contains ns address

-- The answer of `verify_request`, without its log line.
unfoldable pub permitted : List Network → Address → Bool
unfolding unmapped any_contains
permitted allowed address = any_contains allowed (unmapped address)

-- `none` is the exception `ValueError`.
unfoldable pub parse_all : (ip_network : Text → Option Network) → List Text → Option (List Network)
parse_all ip_network [] = some []
parse_all ip_network (item ∷ items) =
    let rest = parse_all ip_network items in
    elim (ip_network item) [
      | none ↦ none
      | some n ↦ elim rest [ none ↦ none | some ns ↦ some (n ∷ ns) ]
    ]

unfoldable pub any_unrestricted : List Network → Bool
any_unrestricted [] = false
any_unrestricted (n ∷ ns) = n.prefix_length == 0 || any_unrestricted ns

split_on : ℕ → Text → Text → List Text
split_on sep acc [] = acc ∷ []
split_on sep acc (c ∷ s) =
    let next = split_on sep [] s in
    let more = split_on sep (acc ++ c ∷ []) s in if c == sep then acc ∷ next else more

unfoldable pub is_space : ℕ → Bool
is_space c = c == b' ' || (leb 9 c && leb c 13) || (leb 28 c && leb c 31)

unfoldable pub strip_left : Text → Text
strip_left [] = []
strip_left (c ∷ s) = let rest = strip_left s in if is_space c then rest else c ∷ s

unfoldable pub strip_right : Text → Text
strip_right [] = []
strip_right (c ∷ s) = elim (strip_right s) [
  | [] ↦ if is_space c then [] else c ∷ []
  | d ∷ r ↦ c ∷ d ∷ r
]

-- item.strip() for item in value.split(","), for ASCII spaces.
unfoldable pub client_items : Text → List Text
unfolding split_on is_space strip_left strip_right
client_items text = map (λ item. strip_right (strip_left item)) (split_on b',' [] text)

checked_clients : Option (List Network) → Option (List Network)
checked_clients none = none
checked_clients (some networks) =
    if any_unrestricted networks then none else some (loopback_clients ++ networks)

-- `none` is the exception `SystemExit`.
unfoldable pub allowed_clients : (ip_network : Text → Option Network) → Text → Option (List Network)
unfolding checked_clients
allowed_clients ip_network text = checked_clients (parse_all ip_network (client_items text))
