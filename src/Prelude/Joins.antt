-- ===== src/Prelude/Joins.antt =====
-- `high << 8 | low` as a sum.
use Prim.Native.Nat.{
  ℕ, zero, suc, ◌+◌, ◌*◌, ◌/◌, ◌%◌, ◌≤◌, ◌<◌, max, bit_or, digits, bit_or-bitwise,
}
use mathlib.Core.Path.{◌≡◌, refl}
use native.Mathlib.Omega.{arith}

-- The recursion that `bit_or` stands for, on `fuel` digits.
abbrev joined_bits : ℕ → ℕ → ℕ → ℕ
joined_bits fuel x y = digits (λ rest. rest) max fuel x y

joined_bits_stable : (f g x y : ℕ) → x ≤ f → x ≤ g → joined_bits f x y ≡ joined_bits g x y
joined_bits_stable zero zero zero y _ _ = refl
joined_bits_stable zero (suc g) zero y _ _ = refl
joined_bits_stable (suc f) zero zero y _ _ = refl
joined_bits_stable (suc f) (suc g) zero y _ _ = refl
joined_bits_stable zero g (suc x) y h _ = absurd (omega arith)
joined_bits_stable (suc f) zero (suc x) y _ h = absurd (omega arith)
joined_bits_stable (suc f) (suc g) (suc x) y h k =
    let rest = joined_bits_stable f g (suc x / 2) (y / 2) (omega arith) (omega arith) in omega arith

zero_join : (y : ℕ) → bit_or 0 y ≡ y
zero_join y = bit_or-bitwise 0 y

-- One binary digit at a time.
join_step : (x y : ℕ) → bit_or x y ≡ 2 * bit_or (x / 2) (y / 2) + max (x % 2) (y % 2)
join_step zero y = omega (arith, zero_join y, zero_join (y / 2))
join_step (suc x) y =
    let half = suc x / 2 in
    let stable = joined_bits_stable x half half (y / 2) (omega arith) (omega arith) in
    omega (arith, bit_or-bitwise (suc x) y, bit_or-bitwise half (y / 2), stable)

join_zero : (x : ℕ) → bit_or x 0 ≡ x
join_zero x = go x x (omega arith)
  where
    go : (n x : ℕ) → x ≤ n → bit_or x 0 ≡ x
    go n zero h = zero_join 0
    go zero (suc x) h = absurd (omega arith)
    go (suc n) (suc x) h = omega (arith, join_step (suc x) 0, go n (suc x / 2) (omega arith))

join_even : (x y : ℕ) → bit_or (2 * x) y ≡ 2 * bit_or x (y / 2) + y % 2
join_even x y =
    let half : 2 * x / 2 ≡ x = omega arith in omega (arith, rw half at (join_step (2 * x) y))

join_4_times : (x y : ℕ) → bit_or (4 * x) y ≡ 4 * bit_or x (y / 4) + y % 4
join_4_times x y =
    let part : 4 * x ≡ 2 * (2 * x) = omega arith in
    let rest : y / 2 / 2 ≡ y / 4 = omega arith in
    rw part (omega (arith, join_even (2 * x) y, rw rest at (join_even x (y / 2))))

join_16_times : (x y : ℕ) → bit_or (16 * x) y ≡ 16 * bit_or x (y / 16) + y % 16
join_16_times x y =
    let part : 16 * x ≡ 4 * (4 * x) = omega arith in
    let rest : y / 4 / 4 ≡ y / 16 = omega arith in
    rw part (omega (arith, join_4_times (4 * x) y, rw rest at (join_4_times x (y / 4))))

-- A byte joined below a shifted value.
pub join_byte : (x y : ℕ) → y < 256 → bit_or (x * 256) y ≡ x * 256 + y
join_byte x y h =
    let part : x * 256 ≡ 16 * (16 * x) = omega arith in
    let rest : y / 16 / 16 ≡ 0 = omega arith in
    rw part
      (omega (arith, join_16_times (16 * x) y, rw rest at (join_16_times x (y / 16)), join_zero x))

join_half : (x k : ℕ) → bit_or x (2 * k) ≡ 2 * bit_or (x / 2) k + x % 2
join_half x k =
    let half : 2 * k / 2 ≡ k = omega arith in omega (arith, rw half at (join_step x (2 * k)))

join_quarter : (x k : ℕ) → bit_or x (4 * k) ≡ 4 * bit_or (x / 4) k + x % 4
join_quarter x k =
    let part : 4 * k ≡ 2 * (2 * k) = omega arith in
    let rest : x / 2 / 2 ≡ x / 4 = omega arith in
    rw part (omega (arith, join_half x (2 * k), rw rest at (join_half (x / 2) k)))

join_sixteenth : (x k : ℕ) → bit_or x (16 * k) ≡ 16 * bit_or (x / 16) k + x % 16
join_sixteenth x k =
    let part : 16 * k ≡ 4 * (4 * k) = omega arith in
    let rest : x / 4 / 4 ≡ x / 16 = omega arith in
    rw part (omega (arith, join_quarter x (4 * k), rw rest at (join_quarter (x / 4) k)))

join_1 : (x : ℕ) → bit_or x 1 ≡ 2 * (x / 2) + 1
join_1 x = omega (arith, join_step x 1, join_zero (x / 2))

-- The bit TC.
pub join_tc : (x : ℕ) → bit_or x 0x200 ≡ 0x400 * (x / 0x400) + 0x200 + x % 0x200
join_tc x =
    let upper = join_sixteenth x 32 in
    let lower = join_sixteenth (x / 16) 2 in
    let last = join_half (x / 16 / 16) 1 in
    omega (arith, upper, lower, last, join_1 (x / 16 / 16 / 2))
