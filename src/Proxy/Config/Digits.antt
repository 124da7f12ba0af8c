-- ===== src/Proxy/Config/Digits.antt =====
-- `int(str(n))`.
use dns_server_lan_fixtures.Prelude.{
  ℕ, zero, suc, ◌+◌, ◌-◌, ◌*◌, ◌/◌, ◌%◌, ◌≤◌, ◌<◌, ◌≡◌, refl, ◌∙◌, inl, inr, Bool, true, false,
  ◌&&◌, some, [], ◌∷◌, arith, Text, All, ltb, leb, ◌==◌, Bool-cases,
}
use dns_server_lan_fixtures.Prelude.Int.{pos}
use dns_server_lan_fixtures.Proxy.Access.{strip_left, strip_right, is_space}
use dns_server_lan_fixtures.Proxy.Config.{read_digits, read_sign, int, decimal_onto, decimal}

abbrev IsDigit : ℕ → Type 0
IsDigit c = (48 ≤ c) × (c ≤ 57)

digit-not_space : (c : ℕ) → IsDigit c → is_space c ≡ false
unfolding is_space
digit-not_space c h = ground arith

strip_left-digits : (s : Text) → All IsDigit s → strip_left s ≡ s
unfolding strip_left
strip_left-digits [] h = refl
strip_left-digits (c ∷ s) (h, hs) = rw (digit-not_space c h) refl

strip_right-digits : (s : Text) → All IsDigit s → strip_right s ≡ s
unfolding strip_right
strip_right-digits [] h = refl
strip_right-digits (c ∷ []) (h, hs) = rw (digit-not_space c h) refl
strip_right-digits (c ∷ d ∷ s) (h, hs) = rw (strip_right-digits (d ∷ s) hs) refl

decimal_onto-digits :
    (k n : ℕ) (tail : Text) → All IsDigit tail → All IsDigit (decimal_onto k n tail)
unfolding decimal_onto
decimal_onto-digits zero n tail h = h
decimal_onto-digits (suc k) n tail h = elim (Bool-cases (ltb n 10)) [
  | inl small ↦ rw small ((omega arith, omega arith), h)
  | inr large ↦
      rw large
        (decimal_onto-digits k (n / 10) ((b'0' + n % 10) ∷ tail) ((omega arith, omega arith), h))
]

read_digit :
    (acc d : ℕ) (after : Bool) (s : Text)
    → d < 10
    → read_digits acc after ((b'0' + d) ∷ s) ≡ read_digits (acc * 10 + d) true s
unfolding read_digits
read_digit acc d after s h =
    let is : (leb b'0' (b'0' + d) && leb (b'0' + d) b'9') ≡ true = ground arith in
    let value : acc * 10 + (b'0' + d - b'0') ≡ acc * 10 + d = omega arith in rw (is, value) refl

read_decimal :
    (k n : ℕ) (after : Bool) (tail : Text)
    → n < k
    → read_digits 0 after (decimal_onto k n tail) ≡ read_digits n true tail
unfolding decimal_onto
read_decimal zero n after tail h = absurd (omega arith)
read_decimal (suc k) n after tail h = elim (Bool-cases (ltb n 10)) [
  | inl small ↦
      let below : n < 10 = ground arith in
      let digit : n % 10 ≡ n = omega arith in
      let value : 0 * 10 + n % 10 ≡ n = omega arith in
      rw small (read_digit 0 (n % 10) after tail (omega arith) ∙ rw value refl)
  | inr large ↦
      let above : 10 ≤ n = ground arith in
      let value : n / 10 * 10 + n % 10 ≡ n = omega arith in
      rw large (
        read_decimal k (n / 10) after ((b'0' + n % 10) ∷ tail) (omega arith)
        ∙ read_digit (n / 10) (n % 10) true tail (omega arith)
        ∙ rw value refl)
]

read_sign-digits :
    (s : Text)
    → All IsDigit s
    → (n : ℕ) → read_digits 0 false s ≡ some n
    → read_sign s ≡ some (pos n)
unfolding read_sign read_digits
read_sign-digits [] h n e = absurd (cc e)
read_sign-digits (c ∷ s) (h, hs) n e =
    let not_minus : (c == b'-') ≡ false = ground arith in
    let not_plus : (c == b'+') ≡ false = ground arith in rw (not_minus, not_plus, e) refl

-- `int` reads every number that `str` writes.
pub int-decimal : (n : ℕ) → int (decimal n) ≡ some (pos n)
unfolding int decimal
int-decimal n =
    let digits = decimal_onto-digits (suc n) n [] tt in
    rw (strip_left-digits (decimal n) digits, strip_right-digits (decimal n) digits)
      (read_sign-digits (decimal n) digits n (read_decimal (suc n) n false [] (omega arith)))
