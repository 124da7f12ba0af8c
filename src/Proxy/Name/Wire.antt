-- ===== src/Proxy/Name/Wire.antt =====
-- `_decode_name` against the wire format of RFC 1035, section 4.1.4, as a relation.
use dns_server_lan_fixtures.Prelude.{
  ℕ, ◌+◌, ◌*◌, ◌%◌, ◌≤◌, ◌<◌, ◌≡◌, List, [], ◌∷◌, Bytes, length, get_or, slice,
}
use dns_server_lan_fixtures.Prelude.Masks.{mask_63}
use dns_server_lan_fixtures.Prelude.Joins.{join_byte}
use dns_server_lan_fixtures.Proxy.Name.{pointer_of}

abbrev pub byte_at : Bytes → ℕ → ℕ
byte_at m i = get_or m i 0

-- The labels of the name at an offset, and where its own bytes end.
pub data NameAt (m : Bytes) : ℕ → List Bytes → ℕ → Type 0 where
  root : {i e : ℕ} → i < length m → byte_at m i ≡ 0 → e ≡ i + 1 → NameAt m i [] e
  label :
      {i j e : ℕ} {l : Bytes} {ls : List Bytes}
      → 0 < byte_at m i
      → byte_at m i < 64
      → j ≡ i + 1 + byte_at m i
      → j ≤ length m
      → l ≡ slice m (i + 1) j
      → NameAt m j ls e
      → NameAt m i (l ∷ ls) e
  pointer :
      {i j e d : ℕ} {ls : List Bytes}
      → i + 1 < length m
      → 192 ≤ byte_at m i
      → j ≡ byte_at m i % 64 * 256 + byte_at m (i + 1)
      → j < length m
      → NameAt m j ls d
      → e ≡ i + 2
      → NameAt m i ls e

abbrev pub IsBytes : Bytes → Type 0
IsBytes m = (i : ℕ) → byte_at m i < 256

pub pointer_of_lem : (len low : ℕ) → low < 256 → pointer_of len low ≡ len % 64 * 256 + low
unfolding pointer_of
pointer_of_lem len low h = rw mask_63 (join_byte (len % 64) low h)
