-- ===== src/Proxy/Name/Complete.antt =====
-- `_decode_name` accepts every well-formed ASCII name of at most 128 labels and pointers.
use dns_server_lan_fixtures.Prelude.{
  sym, ◌∙◌, append_assoc, none, zero, append-nil, Text, Option, All, ℕ, suc, ◌+◌, ◌≤◌, ◌<◌, ◌≡◌,
  refl, ap, ◌≢◌, inl, inr, true, false, some, List, [], ◌∷◌, ◌++◌, arith, Bytes, lower, length,
  slice, ◌==◌, Bool-cases,
}
use dns_server_lan_fixtures.Prelude.Masks.{mask_192}
use dns_server_lan_fixtures.Proxy.Query.{is_ascii}
use dns_server_lan_fixtures.Proxy.Name.Wire.{
  pointer_of_lem, byte_at, NameAt, root, label, pointer, IsBytes,
}
use dns_server_lan_fixtures.Proxy.Name.{
  returned, decode_loop, decode_name, mem_visited, Decoding, finished, again, end_or, pointer_of,
  display, decode_round,
}

-- The rounds that a name takes: one for each label, pointer and the root.
abbrev pub rounds : {m : Bytes} {i e : ℕ} {ls : List Bytes} → NameAt m i ls e → ℕ
rounds (root _ _ _) = 1
rounds (label _ _ _ _ _ d) = suc (rounds d)
rounds (pointer _ _ _ _ d _) = suc (rounds d)

-- The format is deterministic.
rounds_unique :
    (m : Bytes) {i j e e' : ℕ} {ls ls' : List Bytes} (d : NameAt m i ls e) (d' : NameAt m j ls' e')
    → i ≡ j
    → rounds d ≡ rounds d'
rounds_unique m (root a b c) (root a' b' c') q = refl
rounds_unique m (root a b c) (label a' b' c' d' e' f') q = absurd (ground arith)
rounds_unique m (root a b c) (pointer a' b' c' d' e' f') q = absurd (ground arith)
rounds_unique m (label a b c d e f) (root a' b' c') q = absurd (ground arith)
rounds_unique m (label a b c d e f) (label a' b' c' d' e' f') q =
    ap suc (rounds_unique m f f' (ground arith))
rounds_unique m (label a b c d e f) (pointer a' b' c' d' e' f') q = absurd (ground arith)
rounds_unique m (pointer a b c d e f) (root a' b' c') q = absurd (ground arith)
rounds_unique m (pointer a b c d e f) (label a' b' c' d' e' f') q = absurd (ground arith)
rounds_unique m (pointer a b c d e f) (pointer a' b' c' d' e' f') q =
    ap suc (rounds_unique m e e' (ground arith))

module _ (m : Bytes) (bytes : IsBytes m) where
  -- Every pointer followed so far leads to a name of `n` rounds or more.
  abbrev Ahead : ℕ → List ℕ → Type 0
  Ahead n [] = Unit
  Ahead n (p ∷ ps) =
      ((ls : List Bytes) × (e : ℕ) × (d : NameAt m p ls e) × (n ≤ rounds d)) × Ahead n ps

  Ahead-weaken : (n k : ℕ) (ps : List ℕ) → k ≤ n → Ahead n ps → Ahead k ps
  Ahead-weaken n k [] h a = tt
  Ahead-weaken n k (p ∷ ps) h ((ls, e, d, l), a) =
      ((ls, e, d, omega arith), Ahead-weaken n k ps h a)

  -- So the pointer of a name of fewer rounds is not among them.
  not_visited :
      (p : ℕ) (ps : List ℕ) {ls : List Bytes} {e : ℕ} (d : NameAt m p ls e)
      → Ahead (suc (rounds d)) ps
      → mem_visited p ps ≡ false
  unfolding mem_visited
  not_visited p [] d a = refl
  not_visited p (q ∷ ps) d ((ls, e, d', l), a) =
      let rest = not_visited p ps d a in
      elim (Bool-cases (p == q)) [
        | inl same ↦ absurd (let u = rounds_unique m d d' (ground arith) in omega arith)
        | inr other ↦ rw other rest
      ]

  round_label :
      (s : Decoding)
      → s.cursor < length m
      → 0 < byte_at m s.cursor
      → byte_at m s.cursor < 64
      → s.cursor + 1 + byte_at m s.cursor ≤ length m
      → is_ascii (slice m (s.cursor + 1) (s.cursor + 1 + byte_at m s.cursor)) ≡ true
      → decode_round m s
        ≡ again (record s {
          cursor = s.cursor + 1 + byte_at m s.cursor;
          labels = s.labels ++ slice m (s.cursor + 1) (s.cursor + 1 + byte_at m s.cursor) ∷ [];
        })
  unfolding decode_round
  round_label s inside pos low fits ascii = let top = mask_192 (byte_at m s.cursor) in ground arith

  round_pointer :
      (s : Decoding)
      → s.cursor + 1 < length m
      → 192 ≤ byte_at m s.cursor
      → pointer_of (byte_at m s.cursor) (byte_at m (s.cursor + 1)) < length m
      → mem_visited (pointer_of (byte_at m s.cursor) (byte_at m (s.cursor + 1))) s.visited ≡ false
      → pointer_of (byte_at m s.cursor) (byte_at m (s.cursor + 1)) ≢ s.cursor
      → decode_round m s
        ≡ again (record s {
          cursor = pointer_of (byte_at m s.cursor) (byte_at m (s.cursor + 1));
          end_offset = some (end_or s.end_offset (s.cursor + 2));
          visited = pointer_of (byte_at m s.cursor) (byte_at m (s.cursor + 1)) ∷ s.visited;
        })
  unfolding decode_round
  round_pointer s inside high below fresh other =
      let top = mask_192 (byte_at m s.cursor) in let b = bytes s.cursor in ground arith

  round_root :
      (s : Decoding)
      → s.cursor < length m
      → byte_at m s.cursor ≡ 0
      → decode_round m s ≡ finished (lower (display s.labels)) (end_or s.end_offset (s.cursor + 1))
  unfolding decode_round
  round_root s inside z = ground arith

  abbrev AllAscii : List Bytes → Type 0
  AllAscii = All (λ l. is_ascii l ≡ true)

  loop_complete :
      (n : ℕ) {i e : ℕ} {ls : List Bytes} (d : NameAt m i ls e) (eo : Option ℕ) (vis : List ℕ)
      (acc : List Text)
      → rounds d ≤ n
      → AllAscii ls
      → Ahead (rounds d) vis
      → decode_loop n m (record { cursor = i; end_offset = eo; visited = vis; labels = acc })
        ≡ returned (lower (display (acc ++ ls)), end_or eo e)
  unfolding decode_loop
  loop_complete zero (root _ _ _) eo vis acc h a v = absurd (omega arith)
  loop_complete zero (label _ _ _ _ _ _) eo vis acc h a v = absurd (omega arith)
  loop_complete zero (pointer _ _ _ _ _ _) eo vis acc h a v = absurd (omega arith)
  loop_complete (suc n) {i = i} (root inside z end) eo vis acc h a v =
      let s : Decoding = record { cursor = i; end_offset = eo; visited = vis; labels = acc } in
      rw (round_root s inside z) (rw (append-nil, end))
  loop_complete (suc n) {i = i} (label {l = l} pos low ej fits el d) eo vis acc h (a, as') v =
      let s : Decoding = record { cursor = i; end_offset = eo; visited = vis; labels = acc } in
      let el' : l ≡ slice m (i + 1) (i + 1 + byte_at m i) = rw ej at el in
      let weaker = Ahead-weaken (suc (rounds d)) (rounds d) vis (omega arith) v in
      let ih = loop_complete n d eo vis (acc ++ l ∷ []) (omega arith) as' weaker in
      rw (round_label s (omega arith) pos low (omega arith) (rw el' at a))
        (rw (← ej, ← el) (rw append_assoc at ih))
  loop_complete (suc n) {i = i} (pointer {j = j} inside high ej below d end) eo vis acc h a v =
      let s : Decoding = record { cursor = i; end_offset = eo; visited = vis; labels = acc } in
      let value = pointer_of_lem (byte_at m i) (byte_at m (i + 1)) (bytes (i + 1)) ∙ sym ej in
      let weaker = Ahead-weaken (suc (rounds d)) (rounds d) vis (omega arith) v in
      let ih =
        loop_complete n d (some (end_or eo (i + 2))) (j ∷ vis) acc (omega arith) a
          ((_, _, d, omega arith), weaker) in
      let apart : j ≢ i = λ same.
        absurd
          (let u = rounds_unique m d (pointer inside high ej below d end) same in omega arith) in
      rw
        (round_pointer s inside high (rw value below) (rw value (not_visited j vis d v))
          (rw value apart))
        (rw (value, end) ih)

-- A name of the wire format with ASCII labels, read in at most 128 rounds, is returned.
pub decode_name_complete :
    (m : Bytes) (offset : ℕ) {ls : List Bytes} {end : ℕ} (d : NameAt m offset ls end)
    → IsBytes m
    → rounds d ≤ 128
    → All (λ l. is_ascii l ≡ true) ls
    → decode_name m offset ≡ returned (lower (display ls), end)
unfolding decode_name
decode_name_complete m offset d bytes short ascii =
    loop_complete m bytes 128 d none [] [] short ascii tt
