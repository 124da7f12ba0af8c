-- ===== src/Proxy/Name/Rule.antt =====
-- An induction rule for the loop of `_decode_name`.
use dns_server_lan_fixtures.Prelude.{ℕ, zero, suc, ◌≡◌, arith, Bytes, Text}
use dns_server_lan_fixtures.Outcome.{Outcome, returned}
use mathlib.Core.Path.{subst₂}
use dns_server_lan_fixtures.Proxy.Name.{
  after_round, Decoding, Round, stopped, finished, again, decode_round, decode_loop,
}

-- What a round establishes: `Q` of a result, `P` of the next state.
abbrev pub After : (Decoding → Type 0) → (Text → ℕ → Type 0) → Round → Type 0
After P Q (stopped e) = Unit
After P Q (finished name end) = Q name end
After P Q (again s) = P s

module _ (m : Bytes) (P : Decoding → Type 0) (Q : Text → ℕ → Type 0) where
  -- The rest of the loop after a round.
  rest_of_loop :
      (next : Decoding → Outcome (Text × ℕ)) (r : Round) {name : Text} {end : ℕ}
      → ((s : Decoding) → P s → next s ≡ returned (name, end) → Q name end)
      → After P Q r
      → after_round next r ≡ returned (name, end)
      → Q name end
  rest_of_loop next (stopped e) ih h eq = cc
  rest_of_loop next (finished a b) ih h eq = subst₂ Q (ground arith) (ground arith) h
  rest_of_loop next (again s) ih h eq = ih s h eq

  -- An invariant of the rounds that gives `Q` at the end gives `Q` of the loop's result.
  pub decode_loop_rule :
      (n : ℕ) (s : Decoding) {name : Text} {end : ℕ}
      → ((s : Decoding) → P s → After P Q (decode_round m s))
      → P s
      → decode_loop n m s ≡ returned (name, end)
      → Q name end
  unfolding decode_loop
  decode_loop_rule zero s round h e = cc
  decode_loop_rule (suc n) s round h e =
      rest_of_loop (decode_loop n m) (decode_round m s)
        (λ s' h' e'. decode_loop_rule n s' round h' e') (round s h) e
