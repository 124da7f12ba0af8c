-- ===== src/Proxy/Fresh/Sets.antt =====
-- The sets of keys of fault_proxy/fresh_fixtures.py and the texts that it builds.
use dns_server_lan_fixtures.Prelude.{
  ℕ, zero, suc, ◌+◌, ◌-◌, ◌/◌, ◌%◌, Bool, false, ◌&&◌, ◌||◌, List, [], ◌∷◌, ◌++◌, Text, codes,
  eq_bytes, take, drop, ltb, leb, ◌==◌, if◌then◌else◌,
}

-- TRANSPORT_KEYS
unfoldable pub transport_keys : List Text
transport_keys =
    codes "split-prefix"
    ∷ codes "split-body"
    ∷ codes "bytewise"
    ∷ codes "request-split-prefix"
    ∷ codes "request-split-body"
    ∷ codes "request-bytewise"
    ∷ codes "persistent"
    ∷ codes "pipeline"
    ∷ codes "reordered"
    ∷ codes "coalesced"
    ∷ codes "close-before"
    ∷ codes "close-prefix"
    ∷ codes "close-body"
    ∷ codes "length-mismatch"
    ∷ codes "stall"
    ∷ codes "duplicate"
    ∷ codes "trailing"
    ∷ codes "mismatch-id"
    ∷ codes "mismatch-question"
    ∷ codes "zero-prefix"
    ∷ codes "partial-prefix"
    ∷ codes "partial-body"
    ∷ []

-- ADDRESS_KEYS
unfoldable pub address_keys : List Text
unfolding transport_keys
address_keys =
    transport_keys
    ++ (codes "a"
        ∷ codes "exact"
        ∷ codes "wildcard"
        ∷ codes "mixed-case"
        ∷ codes "long-label"
        ∷ codes "long-name"
        ∷ codes "ttl-zero"
        ∷ codes "ttl-normal"
        ∷ codes "ttl-high"
        ∷ codes "signed"
        ∷ codes "do-off"
        ∷ codes "cd"
        ∷ codes "ad"
        ∷ codes "any"
        ∷ codes "nodata"
        ∷ codes "unsupported"
        ∷ [])

-- ALIASES
unfoldable pub aliases : List Text
aliases =
    codes "cname" ∷ codes "cname-a" ∷ codes "cname-chain" ∷ codes "chain-hop" ∷ codes "ad-guid" ∷ []

-- DNAME_KEYS
unfoldable pub dname_keys : List Text
dname_keys = codes "dname" ∷ codes "dname-child" ∷ []

-- text * n
unfoldable pub repeat_text : ℕ → Text → Text
repeat_text zero text = []
repeat_text (suc n) text = text ++ repeat_text n text

-- " ".join(text for _ in range(n))
unfoldable pub spaced : ℕ → Text → Text
spaced zero text = []
spaced (suc zero) text = text
spaced (suc (suc n)) text = text ++ (b' ' ∷ spaced (suc n) text)

-- f"{n:x}"
hex_digit : ℕ → ℕ
hex_digit d = if ltb d 10 then b'0' + d else b'a' + (d - 10)

hex_onto : ℕ → ℕ → Text → Text
unfolding hex_digit
hex_onto zero n acc = acc
hex_onto (suc k) n acc =
    let rest = hex_onto k (n / 16) (hex_digit (n % 16) ∷ acc) in
    if ltb n 16 then hex_digit (n % 16) ∷ acc else rest

unfoldable pub hexadecimal : ℕ → Text
unfolding hex_onto
hexadecimal n = hex_onto (suc n) n []

-- [item(i) for i in range(first, first + n)]
unfoldable pub each : ℕ → ℕ → (ℕ → Text) → List Text
each zero first item = []
each (suc n) first item = item first ∷ each n (suc first) item

-- re.fullmatch(r"srv-(?:[1-9]|[1-5][0-9]|6[0-4])", key)
abbrev srv_number : Text → Bool
srv_number (d ∷ []) = leb b'1' d && leb d b'9'
srv_number (t ∷ d ∷ []) =
    (leb b'1' t && leb t b'5' && (leb b'0' d && leb d b'9'))
    || (t == b'6' && (leb b'0' d && leb d b'4'))
srv_number _ = false

unfoldable pub is_srv_host : Text → Bool
unfolding eq_bytes
is_srv_host key = eq_bytes (take 4 key) (codes "srv-") && srv_number (drop 4 key)
