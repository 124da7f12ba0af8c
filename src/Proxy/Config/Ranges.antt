-- ===== src/Proxy/Config/Ranges.antt =====
-- The values that the configuration accepts.
use dns_server_lan_fixtures.Proxy.Access.{Network, allowed_clients}
use dns_server_lan_fixtures.Proxy.Access.Allowed.{IsRestricted, allowed_clients-IsRestricted}
use dns_server_lan_fixtures.Proxy.Config.{
  Environ, Floats, Config, int, decimal, or_else, in_range, bounded_int, within, bounded_float,
  with_upstream, from_env, ◌>>=◌,
}
use dns_server_lan_fixtures.Prelude.{
  ℕ, ◌≤◌, ◌≡◌, refl, sym, ◌∙◌, ◌≢◌, ◌↔◌, inl, inr, true, ◌&&◌, Option, none, some, [], ◌∷◌, arith,
  Text, codes, All, Bool-cases,
}
use dns_server_lan_fixtures.Prelude.Int.{ℤ, pos, negsuc}
use dns_server_lan_fixtures.Proxy.Config.Digits.{int-decimal}

-- The number that a variable stands for: the default where it is not set.
abbrev pub Reads : Option Text → ℕ → ℕ → Type 0
Reads none default n = n ≡ default
Reads (some text) default n = int text ≡ some (pos n)

in_range_iff :
    (minimum maximum n : ℕ) (value : Option ℤ)
    → (in_range minimum maximum value ≡ some n)
      ↔ ((value ≡ some (pos n)) × (minimum ≤ n) × (n ≤ maximum))
in_range_iff minimum maximum n none = ground arith
in_range_iff minimum maximum n (some (negsuc k)) = ground arith
in_range_iff minimum maximum n (some (pos k)) = ground arith

-- `_bounded_int` accepts exactly the integers in the range, and the default where the variable is
-- not set and the default is in the range.
pub bounded_int_iff :
    (getenv : Environ) (name : Text) (default minimum maximum n : ℕ)
    → (bounded_int getenv name default minimum maximum ≡ some n)
      ↔ (Reads (getenv name) default n × (minimum ≤ n) × (n ≤ maximum))
unfolding bounded_int
bounded_int_iff getenv name default minimum maximum n = by_setting (getenv name)
  where
    by_setting :
        (setting : Option Text)
        → (in_range minimum maximum (int (or_else setting (decimal default))) ≡ some n)
          ↔ (Reads setting default n × (minimum ≤ n) × (n ≤ maximum))
    by_setting none =
        rw (int-decimal default) (default_iff (in_range_iff minimum maximum n (some (pos default))))
      where
        default_iff :
            {P : Type 0}
            → P ↔ ((some (pos default) ≡ some (pos n)) × (minimum ≤ n) × (n ≤ maximum))
            → P ↔ ((n ≡ default) × (minimum ≤ n) × (n ≤ maximum))
        default_iff (f, g) = (λ p. let (e, h, k) = f p in (cc e, h, k), λ (e, h, k). g (cc e, h, k))
    by_setting (some text) = in_range_iff minimum maximum n (int text)

abbrev pub IsBetween : ℕ → ℕ → ℕ → Type 0
IsBetween minimum maximum n = (minimum ≤ n) × (n ≤ maximum)

bounded_int-IsBetween :
    (getenv : Environ) (name : Text) (default minimum maximum : ℕ) {n : ℕ}
    → bounded_int getenv name default minimum maximum ≡ some n
    → IsBetween minimum maximum n
bounded_int-IsBetween getenv name default minimum maximum {n} h =
    let (_, low, high) = (bounded_int_iff getenv name default minimum maximum n).0 h in (low, high)

bind-some {ℓ κ} :
    {A : Type ℓ} {B : Type κ} (o : Option A) (f : A → Option B) {b : B}
    → (o >>= f) ≡ some b
    → (a : A) × (o ≡ some a) × (f a ≡ some b)
bind-some none f h = absurd (cc h)
bind-some (some a) f h = (a, refl, h)

abbrev pub IsWithin : (fl : Floats) → Text → Text → fl.Float → Type 0
IsWithin fl minimum maximum value =
    (fl.at_most (fl.literal minimum) value ≡ true) × (fl.at_most value (fl.literal maximum) ≡ true)

bounded_float-IsWithin :
    (fl : Floats) (getenv : Environ) (name default minimum maximum : Text) {value : fl.Float}
    → bounded_float fl getenv name default minimum maximum ≡ some value
    → IsWithin fl minimum maximum value
unfolding bounded_float
bounded_float-IsWithin fl getenv name default minimum maximum =
    by_value (fl.float (or_else (getenv name) default))
  where
    by_value :
        (read : Option fl.Float) {value : fl.Float}
        → within fl (fl.literal minimum) (fl.literal maximum) read ≡ some value
        → IsWithin fl minimum maximum value
    by_value none h = absurd (cc h)
    by_value (some read) {value} h =
        elim (Bool-cases
          (fl.at_most (fl.literal minimum) read && fl.at_most read (fl.literal maximum))) [
            | inl inside ↦
                let same : read ≡ value = cc (rw inside at h) in
                rw (← same) (ground arith, ground arith)
            | inr outside ↦ absurd (cc (rw outside at h))
          ]

-- What the program may rely on of its configuration.
pub record IsValid (fl : Floats) (config : Config fl) : Type 0 where
  pub listen_port_range : IsBetween 1 65535 config.listen_port
  pub upstream_port_range : IsBetween 1 65535 config.upstream_port
  pub sessions_range : IsBetween 1 1024 config.max_sessions
  pub upstream_named : config.upstream_host ≢ []
  pub stall_range : IsWithin fl (codes "0") (codes "60") config.stall_seconds
  pub timeout_range : IsWithin fl (codes "0.1") (codes "60") config.io_timeout_seconds
  pub clients_restricted : All IsRestricted config.allowed

with_upstream-eq :
    {fl : Floats} (config : Config fl) {result : Config fl}
    → with_upstream config ≡ some result
    → (config ≡ result) × (config.upstream_host ≢ [])
with_upstream-eq config {result} h = by_host config.upstream_host refl h
  where
    by_host :
        (host : Text)
        → config.upstream_host ≡ host
        → (elim host [ [] ↦ none | _ ∷ _ ↦ some config ]) ≡ some result
        → (config ≡ result) × (config.upstream_host ≢ [])
    by_host [] e h = absurd (cc h)
    by_host (c ∷ s) e h = (cc h, λ empty. cc (sym empty ∙ e))

-- An accepted configuration has ports of 1 to 65535, 1 to 1024 sessions, an upstream host, a stall
-- of 0 to 60 and a timeout of 0.1 to 60 seconds, and no allowed network with a prefix of length 0.
pub from_env-IsValid :
    (fl : Floats) (ip_network : Text → Option Network) (getenv : Environ) {config : Config fl}
    → from_env fl ip_network getenv ≡ some config
    → IsValid fl config
unfolding from_env
from_env-IsValid fl ip_network getenv {config} h =
    let (listen_port, a, h₁) =
      bind-some (bounded_int getenv (codes "LISTEN_PORT") 5301 1 65535) _ h in
    let (upstream_port, b, h₂) =
      bind-some (bounded_int getenv (codes "UPSTREAM_PORT") 5353 1 65535) _ h₁ in
    let (delay, c, h₃) =
      bind-some
        (bounded_float fl getenv (codes "CHUNK_DELAY_MS") (codes "50") (codes "0") (codes "10000"))
        _ h₂ in
    let (stall, d, h₄) =
      bind-some
        (bounded_float fl getenv (codes "STALL_SECONDS") (codes "2") (codes "0") (codes "60")) _
        h₃ in
    let (timeout, e, h₅) =
      bind-some
        (bounded_float fl getenv (codes "IO_TIMEOUT_SECONDS") (codes "5") (codes "0.1")
          (codes "60"))
        _ h₄ in
    let (sessions, f, h₆) = bind-some (bounded_int getenv (codes "MAX_SESSIONS") 64 1 1024) _ h₅ in
    let (clients, g, h₇) =
      bind-some
        (allowed_clients ip_network
          (or_else (getenv (codes "DNS_ALLOWED_CLIENTS")) (codes "127.0.0.1/32,::1/128")))
        _ h₆ in
    let (same, named) = with_upstream-eq _ h₇ in
    let (_, _, _, restricted) = allowed_clients-IsRestricted ip_network _ g in
    rw (← same) (record {
      listen_port_range = bounded_int-IsBetween getenv (codes "LISTEN_PORT") 5301 1 65535 a;
      upstream_port_range = bounded_int-IsBetween getenv (codes "UPSTREAM_PORT") 5353 1 65535 b;
      sessions_range = bounded_int-IsBetween getenv (codes "MAX_SESSIONS") 64 1 1024 f;
      upstream_named = named;
      stall_range =
          bounded_float-IsWithin fl getenv (codes "STALL_SECONDS") (codes "2") (codes "0")
            (codes "60") d;
      timeout_range =
          bounded_float-IsWithin fl getenv (codes "IO_TIMEOUT_SECONDS") (codes "5") (codes "0.1")
            (codes "60") e;
      clients_restricted = restricted;
    })
