-- ===== src/Proxy/Query.antt =====
-- `build_query` of fault_proxy/dns_fault_proxy.py.
pub mod Encoding
use dns_server_lan_fixtures.Prelude.{
  ℕ, Bool, true, not, ◌&&◌, List, [], ◌∷◌, ◌++◌, Bytes, Text, rstrip_dots, split_dots, u16, length,
  ltb, leb, if◌then◌else◌,
}
use dns_server_lan_fixtures.Outcome.{
  FormatError, Outcome, returned, raised, format, ◌>>=◌, ◌>>◌, reject_if, transaction_id_range,
  query_type_range, query_label_ascii, query_label_length, query_name_length,
}
use dns_server_lan_fixtures.Prelude.Int.{ℤ, pos, negsuc}

-- `0 <= n <= 0xFFFF`, or the error.
u16_argument : ℤ → FormatError → Outcome ℕ
u16_argument (negsuc n) e = raised (format e)
u16_argument (pos n) e = if leb n 0xFFFF then returned n else raised (format e)

unfoldable pub is_ascii : Text → Bool
is_ascii [] = true
is_ascii (c ∷ s) = ltb c 128 && is_ascii s

-- label.encode("ascii") and the length test.
unfoldable pub encode_label : Text → Outcome Bytes
unfolding is_ascii
encode_label label = do
  reject_if (not (is_ascii label)) query_label_ascii
  reject_if (not (leb 1 (length label) && leb (length label) 63)) query_label_length
  returned (length label ∷ label)

-- The loop over the labels, with the name encoded so far, and the root label behind it.
unfoldable pub encode_labels : Bytes → List Text → Outcome Bytes
encode_labels encoded [] = returned (encoded ++ 0 ∷ [])
encode_labels encoded (label ∷ rest) = do
  bytes ← encode_label label
  encode_labels (encoded ++ bytes) rest

-- `if stripped: for label in stripped.split(".")`
unfoldable pub query_labels : Text → List Text
query_labels [] = []
query_labels (c ∷ s) = split_dots (c ∷ s)

-- struct.pack("!HHHHHH", transaction_id, 0x0100, 1, 0, 0, 0)
abbrev pub query_header : ℕ → Bytes
query_header id = u16 id ++ (u16 0x0100 ++ (u16 1 ++ (u16 0 ++ (u16 0 ++ u16 0))))

unfoldable pub build_query : Text → ℤ → ℤ → Outcome Bytes
unfolding u16_argument
build_query qname qtype transaction_id = do
  id ← u16_argument transaction_id transaction_id_range
  kind ← u16_argument qtype query_type_range
  name ← encode_labels [] (query_labels (rstrip_dots qname))
  reject_if (ltb 255 (length name)) query_name_length
  returned (query_header id ++ (name ++ (u16 kind ++ u16 1)))
