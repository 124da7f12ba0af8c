-- ===== src/Prelude/Masks.antt =====
-- `x & mask` at the masks that the program uses, as `/` and `%`.
use Prim.Native.Nat.{ℕ, zero, suc, ◌+◌, ◌*◌, ◌/◌, ◌%◌, ◌≤◌, min, bit_and, digits, bit_and-bitwise}
use mathlib.Core.Path.{◌≡◌, refl}
use native.Mathlib.Omega.{arith}

-- The recursion that `bit_and` stands for, on `fuel` digits.
abbrev common_bits : ℕ → ℕ → ℕ → ℕ
common_bits fuel x y = digits (λ _. zero) min fuel x y

-- Any two sufficient fuels agree.
common_bits_stable : (x y f g : ℕ) → x ≤ f → x ≤ g → common_bits f x y ≡ common_bits g x y
common_bits_stable x y f g xf xg = go f g x y xf xg
  where
    go : (f g x y : ℕ) → x ≤ f → x ≤ g → common_bits f x y ≡ common_bits g x y
    go zero zero zero y _ _ = refl
    go zero (suc g) zero y _ _ = refl
    go (suc f) zero zero y _ _ = refl
    go (suc f) (suc g) zero y _ _ = refl
    go zero g (suc x) y h _ = absurd (omega arith)
    go (suc f) zero (suc x) y _ h = absurd (omega arith)
    go (suc f) (suc g) (suc x) y h k =
        let rest = go f g (suc x / 2) (y / 2) (omega arith) (omega arith) in omega arith

zero_mask : (y : ℕ) → bit_and 0 y ≡ 0
zero_mask y = bit_and-bitwise 0 y

-- One binary digit at a time.
pub mask_step : (x y : ℕ) → bit_and x y ≡ 2 * bit_and (x / 2) (y / 2) + min (x % 2) (y % 2)
mask_step zero y = omega (arith, zero_mask y, zero_mask (y / 2))
mask_step (suc x) y =
    let half = suc x / 2 in
    let stable = common_bits_stable half (y / 2) x half (omega arith) (omega arith) in
    omega (arith, bit_and-bitwise (suc x) y, bit_and-bitwise half (y / 2), stable)

mask_zero : (x : ℕ) → bit_and x 0 ≡ 0
mask_zero x = go x x (omega arith)
  where
    go : (n x : ℕ) → x ≤ n → bit_and x 0 ≡ 0
    go n zero h = zero_mask 0
    go zero (suc x) h = absurd (omega arith)
    go (suc n) (suc x) h = omega (arith, mask_step (suc x) 0, go n (suc x / 2) (omega arith))

-- A mask of one bit, from the lowest up.
mask_1 : (x : ℕ) → bit_and x 1 ≡ x % 2
mask_1 x = omega (arith, mask_step x 1, mask_zero (x / 2))

mask_3 : (x : ℕ) → bit_and x 3 ≡ x % 4
mask_3 x = omega (arith, mask_step x 3, mask_1 (x / 2))

-- An even mask drops the lowest digit.
mask_even : (x y : ℕ) → bit_and x (2 * y) ≡ 2 * bit_and (x / 2) y
mask_even x y =
    let half : 2 * y / 2 ≡ y = omega arith in omega (arith, rw half at (mask_step x (2 * y)))

mask_4 : (x : ℕ) → bit_and x 4 ≡ 4 * (x / 4 % 2)
mask_4 x = omega (arith, mask_even x 2, mask_even (x / 2) 1, mask_1 (x / 2 / 2))

mask_15 : (x : ℕ) → bit_and x 15 ≡ x % 16
mask_15 x = omega (arith, mask_step x 15, mask_step (x / 2) 7, mask_3 (x / 2 / 2))

-- The six low bits of a length byte, and the two bits above them.
pub mask_63 : (x : ℕ) → bit_and x 63 ≡ x % 64
mask_63 x = omega (arith, mask_step x 63, mask_step (x / 2) 31, mask_15 (x / 2 / 2))

mask_12 : (x : ℕ) → bit_and x 12 ≡ 4 * (x / 4 % 4)
mask_12 x = omega (arith, mask_even x 6, mask_even (x / 2) 3, mask_3 (x / 2 / 2))

pub mask_192 : (x : ℕ) → bit_and x 192 ≡ 64 * (x / 64 % 4)
mask_192 x = omega (
  arith,
  mask_even x 96,
  mask_even (x / 2) 48,
  mask_even (x / 2 / 2) 24,
  mask_even (x / 2 / 2 / 2) 12,
  mask_12 (x / 2 / 2 / 2 / 2),
)

mask_4_times : (x y : ℕ) → bit_and x (4 * y) ≡ 4 * bit_and (x / 4) y
mask_4_times x y =
    let mask : 4 * y ≡ 2 * (2 * y) = omega arith in
    let quarter : x / 2 / 2 ≡ x / 4 = omega arith in
    rw mask (omega (arith, mask_even x (2 * y), rw quarter at (mask_even (x / 2) y)))

mask_16_times : (x y : ℕ) → bit_and x (16 * y) ≡ 16 * bit_and (x / 16) y
mask_16_times x y =
    let mask : 16 * y ≡ 4 * (4 * y) = omega arith in
    let part : x / 4 / 4 ≡ x / 16 = omega arith in
    rw mask (omega (arith, mask_4_times x (4 * y), rw part at (mask_4_times (x / 4) y)))

-- A multiple of 256 as a mask looks at the high byte only.
mask_256_times : (x y : ℕ) → bit_and x (256 * y) ≡ 256 * bit_and (x / 256) y
mask_256_times x y =
    let mask : 256 * y ≡ 16 * (16 * y) = omega arith in
    let part : x / 16 / 16 ≡ x / 256 = omega arith in
    rw mask (omega (arith, mask_16_times x (16 * y), rw part at (mask_16_times (x / 16) y)))

-- The flags RD, AA, QR and the opcode in the flags word.
pub mask_rd : (x : ℕ) → bit_and x 0x100 ≡ 0x100 * (x / 0x100 % 2)
mask_rd x = omega (arith, mask_256_times x 1, mask_1 (x / 256))

pub mask_aa : (x : ℕ) → bit_and x 0x400 ≡ 0x400 * (x / 0x400 % 2)
mask_aa x = omega (arith, mask_256_times x 4, mask_4 (x / 256))

pub mask_qr : (x : ℕ) → bit_and x 0x8000 ≡ 0x8000 * (x / 0x8000 % 2)
mask_qr x = omega (
  arith,
  mask_256_times x 128,
  mask_16_times (x / 256) 8,
  mask_even (x / 256 / 16) 4,
  mask_4 (x / 256 / 16 / 2),
)

pub mask_opcode : (x : ℕ) → bit_and x 0x7800 ≡ 0x800 * (x / 0x800 % 16)
mask_opcode x = omega (
  arith,
  mask_256_times x 120,
  mask_4_times (x / 256) 30,
  mask_even (x / 256 / 4) 15,
  mask_15 (x / 256 / 4 / 2),
)
