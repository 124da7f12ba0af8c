-- ===== src/Proxy/Name/Bounds.antt =====
-- Where `_decode_name` ends.
use dns_server_lan_fixtures.Prelude.{ℕ, ◌≤◌, ◌<◌, ◌≡◌, none, some, arith, Bytes, Text, length}
use dns_server_lan_fixtures.Outcome.{returned}
use dns_server_lan_fixtures.Proxy.Name.Rule.{After, decode_loop_rule}
use dns_server_lan_fixtures.Proxy.Name.{Decoding, decode_round, start_at, decode_name}

-- The end so far: behind the first pointer, or not before the cursor.
abbrev EndInv : Bytes → ℕ → Decoding → Type 0
EndInv m offset s = elim s.end_offset [
  | none ↦ offset ≤ s.cursor
  | some e ↦ (offset < e) × (e ≤ length m)
]

decode_round-EndInv :
    (m : Bytes) (offset : ℕ) (s : Decoding)
    → EndInv m offset s
    → After (EndInv m offset) (λ name end. (offset < end) × (end ≤ length m)) (decode_round m s)
unfolding decode_round
decode_round-EndInv m offset s h = ground arith

-- A decoded name ends behind its offset and inside the message.
pub decode_name_bounds :
    (m : Bytes) (offset : ℕ) {name : Text} {end : ℕ}
    → decode_name m offset ≡ returned (name, end)
    → (offset < end) × (end ≤ length m)
unfolding decode_name
decode_name_bounds m offset =
    decode_loop_rule m (EndInv m offset) (λ name end. (offset < end) × (end ≤ length m)) 128
      (start_at offset) (decode_round-EndInv m offset) (omega arith)
