-- ===== src/Proxy/Config.antt =====
-- `Config.from_env`, `_bounded_int` and `_bounded_float` of fault_proxy/dns_fault_proxy.py.
-- `none` is the exception `SystemExit`.
pub mod Digits
pub mod Ranges
pub mod Tests
use dns_server_lan_fixtures.Prelude.{
  ℕ, zero, suc, ◌+◌, ◌-◌, ◌*◌, ◌/◌, ◌%◌, ◌^◌, ◌≤◌, ◌<◌, min, max, bit_and, bit_or, ◌≡◌, refl, sym,
  ap, ◌∙◌, ◌≡⟨◌⟩◌, ◌∎, ◌≢◌, ◌↔◌, ◌⊎◌, inl, inr, Bool, true, false, not, ◌&&◌, ◌||◌, Option, none,
  some, List, [], ◌∷◌, ◌++◌, map, append-nil, append_assoc, flatten, arith, Bytes, Text, codes,
  to_lower, lower, lower_idem, eq_bytes, eq_bytes_iff, mem_bytes, rstrip_dots, split_dots,
  join_dots, join_dots-split_dots, split_dots-cons, u16, u16_at, u16_parts, length, get_or, take,
  drop, slice, All, length-append, take-append-drop, length-take, length-drop, take_ge, drop_ge,
  take-append, drop-append, take-append_of_length, drop-append_of_length, take-append_left,
  drop-append_left, drop-drop, get_or-append, get_or-drop, length-map, get_or-append_head,
  get_or-append_left, All-append, All-get_or, List-cases, slice-append, take-append_right,
  drop-append_right, ltb, leb, ◌==◌, if◌then◌else◌, ltb→lt, lt→ltb, le→ltb, leb→le, le→leb, lt→leb,
  ==_iff, ==_refl, Bool-cases, Option-cases,
}
use dns_server_lan_fixtures.Prelude.Int.{ℤ, pos, negsuc}
use dns_server_lan_fixtures.Proxy.Access.{
  Network, allowed_clients, strip_left, strip_right, is_space,
}

-- int(text) reads digits with single underscores between them; `after_digit` says whether the last
-- character was a digit.
unfoldable pub read_digits : ℕ → Bool → Text → Option ℕ
read_digits acc after_digit [] = if after_digit then some acc else none
read_digits acc after_digit (c ∷ s) =
    let more = read_digits (acc * 10 + (c - b'0')) true s in
    let gap = read_digits acc false s in
    if leb b'0' c && leb c b'9' then more else if c == b'_' && after_digit then gap else none

abbrev negated : Option ℕ → Option ℤ
negated none = none
negated (some zero) = some (pos 0)
negated (some (suc n)) = some (negsuc n)

abbrev unsigned : Option ℕ → Option ℤ
unsigned none = none
unsigned (some n) = some (pos n)

unfoldable pub read_sign : Text → Option ℤ
unfolding read_digits
read_sign [] = none
read_sign (c ∷ s) =
    if c == b'-'
    then negated (read_digits 0 false s)
    else if c == b'+'
    then unsigned (read_digits 0 false s)
    else unsigned (read_digits 0 false (c ∷ s))

-- int(text), for ASCII texts
unfoldable pub int : Text → Option ℤ
unfolding read_sign is_space strip_left strip_right
int text = read_sign (strip_right (strip_left text))

-- str(n), on as many rounds as `n` has digits at most
unfoldable pub decimal_onto : ℕ → ℕ → Text → Text
decimal_onto zero n acc = acc
decimal_onto (suc k) n acc =
    let digit = b'0' + n % 10 in
    let rest = decimal_onto k (n / 10) (digit ∷ acc) in if ltb n 10 then digit ∷ acc else rest

unfoldable pub decimal : ℕ → Text
unfolding decimal_onto
decimal n = decimal_onto (suc n) n []

-- os.getenv(name, default), of what `os.getenv(name)` is
abbrev pub or_else : Option Text → Text → Text
or_else none default = default
or_else (some text) default = text

-- `if not minimum <= value <= maximum: raise SystemExit(…)`
abbrev pub in_range : ℕ → ℕ → Option ℤ → Option ℕ
in_range minimum maximum none = none
in_range minimum maximum (some (negsuc n)) = none
in_range minimum maximum (some (pos n)) = if leb minimum n && leb n maximum then some n else none

abbrev pub Environ : Type 0
Environ = Text → Option Text

unfoldable pub bounded_int : Environ → Text → ℕ → ℕ → ℕ → Option ℕ
unfolding int decimal
bounded_int getenv name default minimum maximum =
    in_range minimum maximum (int (or_else (getenv name) (decimal default)))

-- The floating-point numbers of the machine, as far as the configuration uses them.
pub record Floats : Type 1 where
  pub Float : Type 0
  -- float(text); `none` is a `ValueError`
  pub float : Text → Option Float
  pub at_most : Float → Float → Bool
  -- A literal of the source, by its text.
  pub literal : Text → Float
  -- value / 1000
  pub thousandth : Float → Float

abbrev within : (fl : Floats) → fl.Float → fl.Float → Option fl.Float → Option fl.Float
within fl minimum maximum none = none
within fl minimum maximum (some value) =
    if fl.at_most minimum value && fl.at_most value maximum then some value else none

-- The default is written as `str` writes the literal.
unfoldable pub bounded_float : (fl : Floats) → Environ → Text → Text → Text → Text → Option fl.Float
bounded_float fl getenv name default minimum maximum =
    within fl (fl.literal minimum) (fl.literal maximum) (fl.float (or_else (getenv name) default))

infixl 5 ◌>>=◌
abbrev pub ◌>>=◌ {ℓ κ} : {A : Type ℓ} {B : Type κ} → Option A → (A → Option B) → Option B
none >>= rest = none
some x >>= rest = rest x

pub record Config (fl : Floats) : Type 0 where
  pub listen_host : Text
  pub listen_port : ℕ
  pub upstream_host : Text
  pub upstream_port : ℕ
  pub chunk_delay_seconds : fl.Float
  pub stall_seconds : fl.Float
  pub io_timeout_seconds : fl.Float
  pub max_sessions : ℕ
  pub healthcheck_host : Text
  pub allowed : List Network

abbrev pub has_colon : Text → Bool
has_colon [] = false
has_colon (c ∷ s) = c == b':' || has_colon s

-- `if not config.upstream_host: raise SystemExit(…)`
abbrev with_upstream : {fl : Floats} → Config fl → Option (Config fl)
with_upstream config = elim config.upstream_host [ [] ↦ none | _ ∷ _ ↦ some config ]

unfoldable pub from_env :
    (fl : Floats) (ip_network : Text → Option Network) → Environ → Option (Config fl)
unfolding bounded_int bounded_float allowed_clients
from_env fl ip_network getenv =
    let listen_host = or_else (getenv (codes "LISTEN_HOST")) (codes "::") in
    do
      listen_port ← bounded_int getenv (codes "LISTEN_PORT") 5301 1 65535
      upstream_port ← bounded_int getenv (codes "UPSTREAM_PORT") 5353 1 65535
      chunk_delay_ms ←
          bounded_float fl getenv (codes "CHUNK_DELAY_MS") (codes "50") (codes "0") (codes "10000")
      stall_seconds ←
          bounded_float fl getenv (codes "STALL_SECONDS") (codes "2") (codes "0") (codes "60")
      io_timeout_seconds ←
          bounded_float fl getenv (codes "IO_TIMEOUT_SECONDS") (codes "5") (codes "0.1")
            (codes "60")
      max_sessions ← bounded_int getenv (codes "MAX_SESSIONS") 64 1 1024
      allowed ←
          allowed_clients ip_network
            (or_else (getenv (codes "DNS_ALLOWED_CLIENTS")) (codes "127.0.0.1/32,::1/128"))
      with_upstream (record {
        listen_host = listen_host;
        listen_port = listen_port;
        upstream_host = or_else (getenv (codes "UPSTREAM_HOST")) (codes "authoritative");
        upstream_port = upstream_port;
        chunk_delay_seconds = fl.thousandth chunk_delay_ms;
        stall_seconds = stall_seconds;
        io_timeout_seconds = io_timeout_seconds;
        max_sessions = max_sessions;
        healthcheck_host =
            or_else (getenv (codes "HEALTHCHECK_HOST"))
              (if has_colon listen_host then codes "::1" else codes "127.0.0.1");
        allowed = allowed;
      })
