-- ===== src/Prelude/Words.antt =====
-- `struct.pack("!H", n)` and the 16-bit big-endian fields of a message.
use Prim.Native.Nat.{ℕ, ◌+◌, ◌*◌, ◌/◌, ◌%◌}
use mathlib.Core.Path.{◌≡◌}
use mathlib.Core.List.{List, [], ◌∷◌}
use native.Mathlib.Omega.{arith}
use dns_server_lan_fixtures.Prelude.Lists.{get_or}

abbrev pub u16 : ℕ → List ℕ
u16 n = n / 256 ∷ n % 256 ∷ []

-- The field at byte offset `i`.
abbrev pub u16_at : List ℕ → ℕ → ℕ
u16_at m i = get_or m i 0 * 256 + get_or m (i + 1) 0

pub u16_parts : (n : ℕ) → (n / 256) * 256 + n % 256 ≡ n
u16_parts n = omega arith
