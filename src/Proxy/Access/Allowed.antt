-- ===== src/Proxy/Access/Allowed.antt =====
-- The allowlist keeps the loopback addresses and holds no network without a prefix.
use dns_server_lan_fixtures.Prelude.{
  ℕ, ◌+◌, ◌*◌, ◌/◌, ◌%◌, ◌^◌, ◌<◌, ◌≡◌, refl, true, false, Option, none, some, List, [], ◌∷◌, ◌++◌,
  arith, Text, All,
}
use dns_server_lan_fixtures.Proxy.Access.{
  v4, v6, Network, loopback_clients, permitted, parse_all, any_unrestricted, client_items,
  checked_clients, allowed_clients,
}

abbrev pub IsRestricted : Network → Type 0
IsRestricted n = 0 < n.prefix_length

any_unrestricted-All : (ns : List Network) → any_unrestricted ns ≡ false → All IsRestricted ns
unfolding any_unrestricted
any_unrestricted-All [] h = tt
any_unrestricted-All (n ∷ ns) h = (ground arith, any_unrestricted-All ns (ground arith))

checked_clients-eq :
    (o : Option (List Network)) {ns : List Network}
    → checked_clients o ≡ some ns
    → (ms : List Network) × (o ≡ some ms) × (ns ≡ loopback_clients ++ ms) × All IsRestricted ms
unfolding checked_clients
checked_clients-eq none h = absurd (cc h)
checked_clients-eq (some ms) h = (ms, refl, ground arith, any_unrestricted-All ms (ground arith))

-- An accepted allowlist is the loopback addresses and then the networks of its items, none of
-- which has a prefix of length 0.
pub allowed_clients-IsRestricted :
    (ip_network : Text → Option Network) (text : Text) {ns : List Network}
    → allowed_clients ip_network text ≡ some ns
    → (ms : List Network) × (parse_all ip_network (client_items text) ≡ some ms)
      × (ns ≡ loopback_clients ++ ms)
      × All IsRestricted ns
unfolding allowed_clients
allowed_clients-IsRestricted ip_network text h =
    let (ms, p, e, r) = checked_clients-eq (parse_all ip_network (client_items text)) h in
    (ms, p, e, rw e (omega arith, (omega arith, r)))

-- Under every accepted allowlist the loopback addresses may ask, also the IPv4 one in its
-- IPv6-mapped form.
pub permitted-loopback :
    (ip_network : Text → Option Network) (text : Text) {ns : List Network}
    → allowed_clients ip_network text ≡ some ns
    → (permitted ns (v4 0x7F000001) ≡ true)
      × (permitted ns (v6 1) ≡ true)
      × (permitted ns (v6 0xFFFF7F000001) ≡ true)
unfolding permitted
permitted-loopback ip_network text {ns} h =
    let (ms, p, e, r) = allowed_clients-IsRestricted ip_network text h in rw e (refl, refl, refl)

-- An IPv4 client is treated alike on an IPv4 and on a dual-stack socket.
pub permitted_mapped :
    (ns : List Network) (a : ℕ)
    → a < 2 ^ 32
    → permitted ns (v6 (0xFFFF * 2 ^ 32 + a)) ≡ permitted ns (v4 a)
unfolding permitted
permitted_mapped ns a h =
    let high : (0xFFFF * 2 ^ 32 + a) / 2 ^ 32 ≡ 0xFFFF = omega arith in
    let low : (0xFFFF * 2 ^ 32 + a) % 2 ^ 32 ≡ a = omega arith in rw (high, low) refl
