-- ===== src/Prelude/Bits.antt =====
-- `&` and `|` at variables, from the digit recursions that the native operations stand for.
use Prim.Native.Nat.{
  ℕ, zero, suc, ◌+◌, ◌*◌, ◌/◌, ◌%◌, ◌^◌, ◌≤◌, ◌<◌, min, max, bit_and, bit_or, digits,
  bit_and-bitwise, bit_or-bitwise,
}
use mathlib.Core.Bool.{Bool, true, ◌&&◌}
use open_airbus_cockpit.Prelude.Tests.{◌==◌}
use mathlib.Core.Path.{◌≡◌, refl, sym, ap, ap₂, ◌∙◌}
use native.Mathlib.Omega.{arith}
use native.Mathlib.Nat.{pow-suc}

-- Both recursions at once: `z` is what is left of the second number when the first runs out.
module _ (z : ℕ → ℕ) (f : ℕ → ℕ → ℕ) (z_step : (b : ℕ) → z b ≡ z (b / 2) * 2 + f 0 (b % 2)) where
  no_digits : (fuel y : ℕ) → digits z f fuel 0 y ≡ z y
  no_digits zero y = refl
  no_digits (suc fuel) y = refl

  -- With fuel for the first number, more fuel makes no difference.
  enough_fuel :
      (x y fuel more : ℕ) → x ≤ fuel → x ≤ more → digits z f fuel x y ≡ digits z f more x y
  enough_fuel zero y fuel more h k = no_digits fuel y ∙ sym (no_digits more y)
  enough_fuel (suc x) y zero more h k = absurd (omega arith)
  enough_fuel (suc x) y (suc fuel) zero h k = absurd (omega arith)
  enough_fuel (suc x) y (suc fuel) (suc more) h k =
      omega (arith, enough_fuel (suc x / 2) (y / 2) fuel more (omega arith) (omega arith))

  digits_step :
      (a b : ℕ) → digits z f a a b ≡ digits z f (a / 2) (a / 2) (b / 2) * 2 + f (a % 2) (b % 2)
  digits_step zero b = z_step b
  digits_step (suc a) b =
      omega (arith, enough_fuel (suc a / 2) (b / 2) a (suc a / 2) (omega arith) (omega arith))

-- The digits below and above place `k` are combined apart.
module _ (op f : ℕ → ℕ → ℕ)
    (op_step : (a b : ℕ) → op a b ≡ op (a / 2) (b / 2) * 2 + f (a % 2) (b % 2))
    (f_zero : f 0 0 ≡ 0) where
  op_split :
      (k a b a' b' : ℕ)
      → a < 2 ^ k
      → b < 2 ^ k
      → op (a + 2 ^ k * a') (b + 2 ^ k * b') ≡ op a b + 2 ^ k * op a' b'
  op_split zero zero zero a' b' ha hb =
      let base : op 0 0 ≡ 0 = omega (arith, op_step 0 0) in
      let ea : 0 + 2 ^ 0 * a' ≡ a' = omega arith in
      let eb : 0 + 2 ^ 0 * b' ≡ b' = omega arith in rw (ea, eb, base) (omega arith)
  op_split zero _ _ a' b' ha hb = absurd (omega arith)
  op_split (suc k) a b a' b' ha hb =
      let ea : 2 ^ suc k * a' ≡ 2 * (2 ^ k * a') = rw (pow-suc 2 k) (omega arith) in
      let eb : 2 ^ suc k * b' ≡ 2 * (2 ^ k * b') = rw (pow-suc 2 k) (omega arith) in
      let eo : 2 ^ suc k * op a' b' ≡ 2 * (2 ^ k * op a' b') = rw (pow-suc 2 k) (omega arith) in
      let da : (a + 2 ^ suc k * a') / 2 ≡ a / 2 + 2 ^ k * a' = omega arith in
      let db : (b + 2 ^ suc k * b') / 2 ≡ b / 2 + 2 ^ k * b' = omega arith in
      let ma : (a + 2 ^ suc k * a') % 2 ≡ a % 2 = omega arith in
      let mb : (b + 2 ^ suc k * b') % 2 ≡ b % 2 = omega arith in
      let low =
        op_split k (a / 2) (b / 2) a' b' (omega (arith, pow-suc 2 k))
          (omega (arith, pow-suc 2 k)) in
      rw (op_step (a + 2 ^ suc k * a') (b + 2 ^ suc k * b'), da, db, ma, mb, low)
        (omega (arith, op_step a b))

bit_and_step : (a b : ℕ) → bit_and a b ≡ bit_and (a / 2) (b / 2) * 2 + min (a % 2) (b % 2)
bit_and_step a b =
    bit_and-bitwise a b
    ∙ digits_step (λ b. 0) min (λ b. omega arith) a b
    ∙ ap (λ n. n * 2 + min (a % 2) (b % 2)) (sym (bit_and-bitwise (a / 2) (b / 2)))

bit_or_step : (a b : ℕ) → bit_or a b ≡ bit_or (a / 2) (b / 2) * 2 + max (a % 2) (b % 2)
bit_or_step a b =
    bit_or-bitwise a b
    ∙ digits_step (λ b. b) max (λ b. omega arith) a b
    ∙ ap (λ n. n * 2 + max (a % 2) (b % 2)) (sym (bit_or-bitwise (a / 2) (b / 2)))

pub bit_and_split :
    (k a b a' b' : ℕ)
    → a < 2 ^ k
    → b < 2 ^ k
    → bit_and (a + 2 ^ k * a') (b + 2 ^ k * b') ≡ bit_and a b + 2 ^ k * bit_and a' b'
bit_and_split = op_split bit_and min bit_and_step refl

pub bit_or_split :
    (k a b a' b' : ℕ)
    → a < 2 ^ k
    → b < 2 ^ k
    → bit_or (a + 2 ^ k * a') (b + 2 ^ k * b') ≡ bit_or a b + 2 ^ k * bit_or a' b'
bit_or_split = op_split bit_or max bit_or_step refl

pub zero-bit_or : (b : ℕ) → bit_or 0 b ≡ b
zero-bit_or b = bit_or-bitwise 0 b

pub zero-bit_and : (b : ℕ) → bit_and 0 b ≡ 0
zero-bit_and b = bit_and-bitwise 0 b

module _ (op f : ℕ → ℕ → ℕ)
    (op_step : (a b : ℕ) → op a b ≡ op (a / 2) (b / 2) * 2 + f (a % 2) (b % 2))
    (f_comm : (a b : ℕ) → f a b ≡ f b a) (f_zero : f 0 0 ≡ 0) where
  op_comm : (n a b : ℕ) → a ≤ n → b ≤ n → op a b ≡ op b a
  op_comm n zero zero h k = refl
  op_comm zero _ _ h k = absurd (omega arith)
  op_comm (suc n) a b h k = omega (
    arith,
    op_step a b,
    op_step b a,
    f_comm (a % 2) (b % 2),
    op_comm n (a / 2) (b / 2) (omega arith) (omega arith),
  )

pub bit_or_comm : (a b : ℕ) → bit_or a b ≡ bit_or b a
bit_or_comm a b =
    op_comm bit_or max bit_or_step (λ a b. omega arith) refl (a + b) a b (omega arith) (omega arith)

pub bit_and_comm : (a b : ℕ) → bit_and a b ≡ bit_and b a
bit_and_comm a b =
    op_comm bit_and min bit_and_step (λ a b. omega arith) refl (a + b) a b (omega arith)
      (omega arith)

-- Disjoint digits add up.
pub bit_or_disjoint : (k a b : ℕ) → a < 2 ^ k → bit_or a (2 ^ k * b) ≡ a + 2 ^ k * b
bit_or_disjoint k a b h =
    let ea : a + 2 ^ k * 0 ≡ a = omega arith in
    let eb : 0 + 2 ^ k * b ≡ 2 ^ k * b = omega arith in
    let split = bit_or_split k a 0 0 b h (omega arith) in
    sym (ap₂ bit_or ea eb)
    ∙ split
    ∙ ap₂ (λ m n. m + 2 ^ k * n) (bit_or_comm a 0 ∙ zero-bit_or a) (zero-bit_or b)

-- Over a small range, check every value by evaluation.
agree_below : (ℕ → ℕ) → (ℕ → ℕ) → ℕ → Bool
agree_below f g zero = true
agree_below f g (suc n) = (f n == g n) && agree_below f g n

agree_below→eq : (f g : ℕ → ℕ) (n i : ℕ) → agree_below f g n ≡ true → i < n → f i ≡ g i
unfolding agree_below
agree_below→eq f g zero i e h = absurd (omega arith)
agree_below→eq f g (suc n) i e h = ground (arith, agree_below→eq f g n i, ap f, ap g)

byte_mask_table : agree_below (λ a. bit_and a 0xff) (λ a. a) 256 ≡ true
unfolding agree_below
byte_mask_table = refl

-- The mask of one byte.
pub bit_and_byte : (a : ℕ) → bit_and a 0xff ≡ a % 256
bit_and_byte a =
    let ea : a % 256 + 2 ^ 8 * (a / 256) ≡ a = omega arith in
    let split = bit_and_split 8 (a % 256) 0xff (a / 256) 0 (omega arith) (omega arith) in
    let low =
      agree_below→eq (λ a. bit_and a 0xff) (λ a. a) 256 (a % 256) byte_mask_table (omega arith) in
    ap (λ n. bit_and n 0xff) (sym ea)
    ∙ split
    ∙ omega (arith, low, bit_and_comm (a / 256) 0, zero-bit_and (a / 256))

ones_table : agree_below (λ b. bit_or 0xff b) (λ b. 0xff) 256 ≡ true
unfolding agree_below
ones_table = refl

pub bit_or_ones : (b : ℕ) → b < 256 → bit_or 0xff b ≡ 0xff
bit_or_ones b h = agree_below→eq (λ b. bit_or 0xff b) (λ b. 0xff) 256 b ones_table h
