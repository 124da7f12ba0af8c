-- ===== src/Proxy/Name.antt =====
-- `_decode_name` of fault_proxy/dns_fault_proxy.py: one round of the loop, and the loop.
mod Rule
pub mod Bounds
pub mod Wire
pub mod Sound
pub mod Complete
use dns_server_lan_fixtures.Prelude.{
  ℕ, zero, suc, ◌+◌, ◌*◌, bit_and, bit_or, Bool, false, not, ◌||◌, Option, none, some, List, [],
  ◌∷◌, ◌++◌, Bytes, Text, codes, lower, join_dots, length, get_or, slice, ltb, leb, ◌==◌,
  if◌then◌else◌,
}
use dns_server_lan_fixtures.Outcome.{
  FormatError, Outcome, returned, raised, format, truncated_name, truncated_pointer,
  pointer_out_of_bounds, pointer_loop, label_length_bits, truncated_label, label_ascii,
  excessive_depth,
}
use dns_server_lan_fixtures.Proxy.Query.{is_ascii}

-- The variables of the loop.
pub record Decoding : Type 0 where
  pub cursor : ℕ
  pub end_offset : Option ℕ
  pub visited : List ℕ
  pub labels : List Text

pub data Round : Type 0 where
  stopped : FormatError → Round
  finished : Text → ℕ → Round
  again : Decoding → Round

-- pointer in visited
mem_visited : ℕ → List ℕ → Bool
mem_visited p [] = false
mem_visited p (q ∷ qs) = p == q || mem_visited p qs

-- `if end_offset is None: end_offset = e`
abbrev pub end_or : Option ℕ → ℕ → ℕ
end_or none e = e
end_or (some d) e = d

-- ((length & 0x3F) << 8) | low
unfoldable pub pointer_of : ℕ → ℕ → ℕ
pointer_of len low = bit_or (bit_and len 0x3F * 256) low

-- The branch of a compression pointer.
unfoldable pub follow_pointer : Bytes → Decoding → ℕ → Round
unfolding mem_visited
follow_pointer message s len =
    let pointer = pointer_of len (get_or message (s.cursor + 1) 0) in
    if leb (length message) (s.cursor + 1)
    then stopped truncated_pointer
    else if leb (length message) pointer
    then stopped pointer_out_of_bounds
    else if mem_visited pointer s.visited || pointer == s.cursor
    then stopped pointer_loop
    else again (record s {
      cursor = pointer;
      end_offset = some (end_or s.end_offset (s.cursor + 2));
      visited = pointer ∷ s.visited;
    })

-- "." if not labels else ".".join(labels)
unfoldable pub display : List Text → Text
display [] = codes "."
display (l ∷ ls) = join_dots (l ∷ ls)

-- The branch of a label, from its length byte.
unfoldable pub read_label : Bytes → Decoding → ℕ → Round
unfolding is_ascii display
read_label message s len =
    let start = s.cursor + 1 in
    let label = slice message start (start + len) in
    if len == 0
    then finished (lower (display s.labels)) (end_or s.end_offset start)
    else if ltb (length message) (start + len)
    then stopped truncated_label
    else if is_ascii label
    then again (record s { cursor = start + len; labels = s.labels ++ label ∷ [] })
    else stopped label_ascii

unfoldable pub decode_round : Bytes → Decoding → Round
unfolding follow_pointer read_label
decode_round message s =
    let len = get_or message s.cursor 0 in
    if leb (length message) s.cursor
    then stopped truncated_name
    else if bit_and len 0xC0 == 0xC0
    then follow_pointer message s len
    else if not (bit_and len 0xC0 == 0)
    then stopped label_length_bits
    else read_label message s len

-- What follows a round: the raise, the return, or the next rounds.
abbrev pub after_round : (Decoding → Outcome (Text × ℕ)) → Round → Outcome (Text × ℕ)
after_round next (stopped e) = raised (format e)
after_round next (finished name end) = returned (name, end)
after_round next (again s) = next s

-- `for _ in range(n)`
unfoldable pub decode_loop : ℕ → Bytes → Decoding → Outcome (Text × ℕ)
decode_loop zero message s = raised (format excessive_depth)
decode_loop (suc n) message s = after_round (decode_loop n message) (decode_round message s)

abbrev pub start_at : ℕ → Decoding
start_at offset = record { cursor = offset; end_offset = none; visited = []; labels = [] }

unfoldable pub decode_name : Bytes → ℕ → Outcome (Text × ℕ)
unfolding decode_loop decode_round
decode_name message offset = decode_loop 128 message (start_at offset)
