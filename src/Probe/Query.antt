-- ===== src/Probe/Query.antt =====
-- `build_query` of scripts/tcp-probe.py.
pub mod Agree
use dns_server_lan_fixtures.Prelude.{
  ℕ, ◌-◌, ◌⊎◌, inl, inr, not, ◌&&◌, List, [], ◌∷◌, ◌++◌, map, Bytes, Text, codes, eq_bytes,
  rstrip_dots, split_dots, u16, length, ltb, leb, if◌then◌else◌,
}
use dns_server_lan_fixtures.Prelude.Int.{ℤ, pos, negsuc}
use dns_server_lan_fixtures.Proxy.Query.{is_ascii}

-- `encode_error` and `pack_error` are the exceptions of `str.encode` and `struct.pack`.
pub data QueryError : Type 0 where
  encode_error label_length name_length unsupported_type pack_error : QueryError

infixl 5 ◌>>=◌
abbrev pub ◌>>=◌ : {A B : Type 0} → QueryError ⊎ A → (A → QueryError ⊎ B) → QueryError ⊎ B
inl e >>= f = inl e
inr a >>= f = f a

encode_label : Text → QueryError ⊎ Bytes
encode_label label =
    if not (is_ascii label)
    then inl encode_error
    else if not (leb 1 (length label) && leb (length label) 63)
    then inl label_length
    else inr (length label ∷ label)

pub encode_labels : Bytes → List Text → QueryError ⊎ Bytes
encode_labels encoded [] = inr (encoded ++ 0 ∷ [])
encode_labels encoded (label ∷ rest) = do
  bytes ← encode_label label
  encode_labels (encoded ++ bytes) rest

-- s.upper(), exact on ASCII.
abbrev pub to_upper : ℕ → ℕ
to_upper c = if leb b'a' c && leb c b'z' then c - 32 else c

-- QTYPE[qtype.upper()]
unfoldable pub type_number : Text → QueryError ⊎ ℕ
type_number qtype =
    if eq_bytes (map to_upper qtype) (codes "A")
    then inr 1
    else if eq_bytes (map to_upper qtype) (codes "TXT")
    then inr 16
    else inl unsupported_type

-- name.rstrip(".").split(".") if name.rstrip(".") else []
unfoldable pub asked_labels : Text → List Text
asked_labels [] = []
asked_labels (c ∷ s) = split_dots (c ∷ s)

-- struct.pack("!HHHHHH", transaction_id, 0x0100, 1, 0, 0, 0), for an identifier of 16 bits
abbrev pub packed_header : ℕ → Bytes
packed_header id = u16 id ++ (u16 0x0100 ++ (u16 1 ++ (u16 0 ++ (u16 0 ++ u16 0))))

-- The header and the question; `struct.pack` refuses an identifier below 0 or above 65535.
pack_query : ℤ → Bytes → ℕ → QueryError ⊎ Bytes
pack_query (negsuc n) name kind = inl pack_error
pack_query (pos id) name kind =
    if leb id 0xFFFF
    then inr (packed_header id ++ (name ++ (u16 kind ++ u16 1)))
    else inl pack_error

unfoldable pub build_query : Text → Text → ℤ → QueryError ⊎ Bytes
unfolding pack_query eq_bytes
build_query name qtype transaction_id = do
  wire_name ← encode_labels [] (asked_labels (rstrip_dots name))
  checked ← (if ltb 255 (length wire_name) then inl name_length else inr wire_name)
  kind ← type_number qtype
  pack_query transaction_id checked kind
