-- ===== src/Proxy/Name/Sound.antt =====
-- What `_decode_name` returns is the name that RFC 1035 reads at the offset.
use dns_server_lan_fixtures.Prelude.{
  ℕ, ◌+◌, ◌*◌, ◌%◌, ◌≤◌, ◌<◌, bit_and, ◌≡◌, refl, inl, inr, ◌||◌, List, [], ◌∷◌, ◌++◌, append-nil,
  append_assoc, arith, Bytes, Text, lower, length, slice, ltb, leb, ◌==◌, Bool-cases,
}
use dns_server_lan_fixtures.Outcome.{returned}
use dns_server_lan_fixtures.Prelude.Masks.{mask_192}
use dns_server_lan_fixtures.Proxy.Query.{is_ascii}
use dns_server_lan_fixtures.Proxy.Name.Rule.{After, decode_loop_rule}
use dns_server_lan_fixtures.Proxy.Name.Wire.{
  byte_at, NameAt, root, label, pointer, IsBytes, pointer_of_lem,
}
use dns_server_lan_fixtures.Proxy.Name.{
  mem_visited, Decoding, end_or, pointer_of, display, follow_pointer, read_label, decode_round,
  start_at, decode_name,
}

module _ (m : Bytes) (bytes : IsBytes m) (offset : ℕ) where
  -- A name read from the cursor completes the labels so far to the name at the offset.
  abbrev Completes : Decoding → Type 0
  Completes s =
      (rest : List Bytes) (d : ℕ)
      → NameAt m s.cursor rest d
      → NameAt m offset (s.labels ++ rest) (end_or s.end_offset d)

  abbrev Decoded : Text → ℕ → Type 0
  Decoded name end = (ls : List Bytes) × NameAt m offset ls end × (name ≡ lower (display ls))

  pointer_step :
      (s : Decoding) (p : ℕ)
      → s.cursor + 1 < length m
      → p < length m
      → 192 ≤ byte_at m s.cursor
      → p ≡ byte_at m s.cursor % 64 * 256 + byte_at m (s.cursor + 1)
      → Completes s
      → (rest : List Bytes) (d : ℕ) → NameAt m p rest d
      → NameAt m offset (s.labels ++ rest) (end_or s.end_offset (s.cursor + 2))
  pointer_step s p inside below high e h rest d n =
      h rest (s.cursor + 2) (pointer inside high e below n refl)

  label_step :
      (s : Decoding) (l : Bytes)
      → 0 < byte_at m s.cursor
      → byte_at m s.cursor < 64
      → s.cursor + 1 + byte_at m s.cursor ≤ length m
      → l ≡ slice m (s.cursor + 1) (s.cursor + 1 + byte_at m s.cursor)
      → Completes s
      → (rest : List Bytes) (d : ℕ) → NameAt m (s.cursor + 1 + byte_at m s.cursor) rest d
      → NameAt m offset ((s.labels ++ l ∷ []) ++ rest) (end_or s.end_offset d)
  label_step s l pos low fits e h rest d n =
      rw append_assoc (h (l ∷ rest) d (label pos low refl fits e n))

  follow_pointer-Completes :
      (s : Decoding)
      → s.cursor < length m
      → 192 ≤ byte_at m s.cursor
      → Completes s
      → After Completes Decoded (follow_pointer m s (byte_at m s.cursor))
  unfolding follow_pointer
  follow_pointer-Completes s inside high h =
      let value =
        pointer_of_lem (byte_at m s.cursor) (byte_at m (s.cursor + 1)) (bytes (s.cursor + 1)) in
      let p = pointer_of (byte_at m s.cursor) (byte_at m (s.cursor + 1)) in
      elim (Bool-cases (leb (length m) (s.cursor + 1))) [
        | inl a ↦ rw a tt
        | inr a ↦ rw a (elim (Bool-cases (leb (length m) p)) [
          | inl b ↦ rw b tt
          | inr b ↦ rw b (elim (Bool-cases (mem_visited p s.visited || p == s.cursor)) [
            | inl c ↦ rw c tt
            | inr c ↦ rw c (pointer_step s p (ground arith) (ground arith) high value h)
          ])
        ])
      ]

  read_label-Completes :
      (s : Decoding)
      → s.cursor < length m
      → byte_at m s.cursor < 64
      → Completes s
      → After Completes Decoded (read_label m s (byte_at m s.cursor))
  unfolding read_label
  read_label-Completes s inside low h =
      let j = s.cursor + 1 + byte_at m s.cursor in
      elim (Bool-cases (byte_at m s.cursor == 0)) [
        | inl a ↦ rw a (
          s.labels,
          rw append-nil at (h [] (s.cursor + 1) (root inside (ground arith) refl)),
          refl,
        )
        | inr a ↦ rw a (elim (Bool-cases (ltb (length m) j)) [
          | inl b ↦ rw b tt
          | inr b ↦ rw b (elim (Bool-cases (is_ascii (slice m (s.cursor + 1) j))) [
            | inl c ↦
                rw c
                  (label_step s (slice m (s.cursor + 1) j) (ground arith) low (ground arith) refl h)
            | inr c ↦ rw c tt
          ])
        ])
      ]

  decode_round-Completes : (s : Decoding) → Completes s → After Completes Decoded (decode_round m s)
  unfolding decode_round
  decode_round-Completes s h =
      let top = mask_192 (byte_at m s.cursor) in
      elim (Bool-cases (leb (length m) s.cursor)) [
        | inl out ↦ rw out tt
        | inr inside ↦ rw inside (elim (Bool-cases (bit_and (byte_at m s.cursor) 0xC0 == 0xC0)) [
          | inl a ↦ rw a (follow_pointer-Completes s (ground arith) (ground arith) h)
          | inr a ↦ rw a (elim (Bool-cases (bit_and (byte_at m s.cursor) 0xC0 == 0)) [
            | inl b ↦
                rw b (read_label-Completes s (ground arith) (ground (arith, bytes s.cursor)) h)
            | inr b ↦ rw b tt
          ])
        ])
      ]

-- A name that is returned is the one that the wire format defines at the offset, in lower case,
-- and the end is the one behind the name's own bytes.
pub decode_name_sound :
    (m : Bytes) (offset : ℕ) {name : Text} {end : ℕ}
    → IsBytes m
    → decode_name m offset ≡ returned (name, end)
    → (ls : List Bytes) × NameAt m offset ls end × (name ≡ lower (display ls))
unfolding decode_name
decode_name_sound m offset bytes =
    decode_loop_rule m (Completes m bytes offset) (Decoded m bytes offset) 128 (start_at offset)
      (decode_round-Completes m bytes offset) (λ rest d n. n)
