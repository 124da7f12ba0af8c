-- ===== src/Probe/Frames.antt =====
-- `parse_frames` and `request_parts` of scripts/tcp-probe.py.
pub mod Split
use dns_server_lan_fixtures.Prelude.{
  ℕ, zero, suc, ◌+◌, ◌-◌, ◌/◌, max, ◌⊎◌, inl, inr, ◌||◌, Option, none, some, List, [], ◌∷◌, ◌++◌,
  Bytes, Text, codes, eq_bytes, u16_at, length, drop, slice, ltb, leb, ◌==◌, if◌then◌else◌,
}

-- frames, trailing, incomplete_expected
pub record Parsed : Type 0 where
  pub frames : List Bytes
  pub trailing : Bytes
  pub incomplete : Option ℕ

-- The `while` loop. A complete frame takes three bytes at least, so `len(data)` rounds are enough.
unfoldable pub parse_loop : ℕ → Bytes → ℕ → List Bytes → Parsed
parse_loop zero bytes offset frames = record {
  frames = frames;
  trailing = drop offset bytes;
  incomplete = none;
}
parse_loop (suc n) bytes offset frames =
    let declared = u16_at bytes offset in
    let frame_end = offset + 2 + declared in
    let stopped : Parsed = record {
      frames = frames;
      trailing = drop offset bytes;
      incomplete = some declared;
    } in
    let next = parse_loop n bytes frame_end (frames ++ slice bytes (offset + 2) frame_end ∷ []) in
    if leb (offset + 2) (length bytes)
    then (if declared == 0 || ltb (length bytes) frame_end then stopped else next)
    else record { frames = frames; trailing = drop offset bytes; incomplete = none }

unfoldable pub parse_frames : Bytes → Parsed
unfolding parse_loop
parse_frames bytes = parse_loop (length bytes) bytes 0 []

pub data RequestError : Type 0 where
  too_short unknown_pattern : RequestError

-- Bytes one by one.
abbrev pub singles : Bytes → List Bytes
singles [] = []
singles (b ∷ bs) = (b ∷ []) ∷ singles bs

unfoldable pub request_parts : Bytes → Text → RequestError ⊎ List Bytes
unfolding eq_bytes
request_parts frame style =
    let midpoint = 2 + max 1 ((length frame - 2) / 2) in
    if ltb (length frame) 3
    then inl too_short
    else if eq_bytes style (codes "whole")
    then inr (frame ∷ [])
    else if eq_bytes style (codes "split-prefix")
    then inr (slice frame 0 1 ∷ slice frame 1 2 ∷ drop 2 frame ∷ [])
    else if eq_bytes style (codes "split-body")
    then inr (slice frame 0 2 ∷ slice frame 2 midpoint ∷ drop midpoint frame ∷ [])
    else if eq_bytes style (codes "bytewise")
    then inr (singles frame)
    else inl unknown_pattern
