-- ===== src/Prelude/Bits.antt =====
-- `&`, `|` and `^` of the source at variables: an operation on digits splits at every bit position.
use Prim.Native.Nat.{
  ℕ, zero, suc, ◌+◌, ◌-◌, ◌*◌, ◌/◌, ◌%◌, ◌^◌, ◌≤◌, ◌<◌, min, max, digits, bitwise, bit_and, bit_or,
  bit_and-bitwise, bit_or-bitwise, compare, Ordering,
}
use mathlib.Core.Path.{◌≡◌, refl, ap}
use mathlib.Core.Bool.{Bool, true, false, ◌&&◌}
use native.Mathlib.Nat.{pow-suc, le_refl, one-le-pow}
use native.Mathlib.Omega.{arith}

-- The count of digits that `digits` is given is of no account, once it is large enough.
module _ (rest : ℕ → ℕ) (digit : ℕ → ℕ → ℕ) where
  count_free : (x y k l : ℕ) → x ≤ k → x ≤ l → digits rest digit k x y ≡ digits rest digit l x y
  count_free zero y zero zero hk hl = refl
  count_free zero y zero (suc l) hk hl = refl
  count_free zero y (suc k) zero hk hl = refl
  count_free zero y (suc k) (suc l) hk hl = refl
  count_free (suc x) y zero l hk hl = absurd (omega arith)
  count_free (suc x) y (suc k) zero hk hl = absurd (omega arith)
  count_free (suc x) y (suc k) (suc l) hk hl =
      rw (count_free (suc x / 2) (y / 2) k l (omega arith) (omega arith))

  lowest_digit :
      (x y : ℕ)
      → digits rest digit (suc x) (suc x) y
        ≡ bitwise rest digit (suc x / 2) (y / 2) * 2 + digit (suc x % 2) (y % 2)
  lowest_digit x y = rw (count_free (suc x / 2) (y / 2) x (suc x / 2) (omega arith) (le_refl _))

-- One digit at a time.
pub bit_and_digit : (x y : ℕ) → bit_and x y ≡ bit_and (x / 2) (y / 2) * 2 + min (x % 2) (y % 2)
bit_and_digit zero y = simp bit_and-bitwise (omega arith)
bit_and_digit (suc x) y = simp bit_and-bitwise (lowest_digit (λ b. 0) min x y)

pub bit_or_digit : (x y : ℕ) → bit_or x y ≡ bit_or (x / 2) (y / 2) * 2 + max (x % 2) (y % 2)
bit_or_digit zero y = simp bit_or-bitwise (omega arith)
bit_or_digit (suc x) y = simp bit_or-bitwise (lowest_digit (λ b. b) max x y)

split_zero :
    (op digit : ℕ → ℕ → ℕ)
    → op 0 0 ≡ 0
    → (q m r s : ℕ) → r < 1
    → s < 1
    → op (q * 1 + r) (m * 1 + s) ≡ op q m * 1 + op r s
split_zero op digit oz q m zero zero hr hs = ground (arith, oz)
split_zero op digit oz q m (suc r) s hr hs = absurd (omega arith)
split_zero op digit oz q m r (suc s) hr hs = absurd (omega arith)

double_pow : (q k : ℕ) → q * 2 ^ suc k ≡ q * 2 ^ k * 2
double_pow q k = omega (arith, ap (λ (t : ℕ). q * t) (pow-suc 2 k))

half_of : (q r k : ℕ) → (q * 2 ^ suc k + r) / 2 ≡ q * 2 ^ k + r / 2
half_of q r k = omega (arith, double_pow q k)

parity_of : (q r k : ℕ) → (q * 2 ^ suc k + r) % 2 ≡ r % 2
parity_of q r k = omega (arith, double_pow q k)

half_lt : (r k : ℕ) → r < 2 ^ suc k → r / 2 < 2 ^ k
half_lt r k h = omega (arith, pow-suc 2 k)

module _ (op digit : ℕ → ℕ → ℕ) (oz : op 0 0 ≡ 0)
    (law : (x y : ℕ) → op x y ≡ op (x / 2) (y / 2) * 2 + digit (x % 2) (y % 2)) where
  op_split :
      (k q m r s : ℕ)
      → r < 2 ^ k
      → s < 2 ^ k
      → op (q * 2 ^ k + r) (m * 2 ^ k + s) ≡ op q m * 2 ^ k + op r s
  op_split zero q m r s hr hs = split_zero op digit oz q m r s hr hs
  op_split (suc k) q m r s hr hs = rw (law (q * 2 ^ suc k + r) (m * 2 ^ suc k + s)) (
      rw (half_of q r k, half_of m s k, parity_of q r k, parity_of m s k)
        (rw (op_split k q m (r / 2) (s / 2) (half_lt r k hr) (half_lt s k hs))
          (omega (arith, double_pow (op q m) k, law r s))))

pub bit_and_split :
    (k q m r s : ℕ)
    → r < 2 ^ k
    → s < 2 ^ k
    → bit_and (q * 2 ^ k + r) (m * 2 ^ k + s) ≡ bit_and q m * 2 ^ k + bit_and r s
bit_and_split = op_split bit_and min refl bit_and_digit

pub bit_or_split :
    (k q m r s : ℕ)
    → r < 2 ^ k
    → s < 2 ^ k
    → bit_or (q * 2 ^ k + r) (m * 2 ^ k + s) ≡ bit_or q m * 2 ^ k + bit_or r s
bit_or_split = op_split bit_or max refl bit_or_digit

pub zero-bit_and : (x : ℕ) → bit_and 0 x ≡ 0
zero-bit_and x = bit_and-bitwise 0 x

pub zero-bit_or : (x : ℕ) → bit_or 0 x ≡ x
zero-bit_or x = bit_or-bitwise 0 x

below_zero : (n x : ℕ) → x ≤ n → (bit_and x 0 ≡ 0) × (bit_or x 0 ≡ x)
below_zero n zero h = (refl, refl)
below_zero zero (suc x) h = absurd (omega arith)
below_zero (suc n) (suc x) h =
    let (a, o) = below_zero n (suc x / 2) (omega arith) in
    (omega (arith, bit_and_digit (suc x) 0, a), omega (arith, bit_or_digit (suc x) 0, o))

pub bit_and-zero : (x : ℕ) → bit_and x 0 ≡ 0
bit_and-zero x = (below_zero x x (le_refl x)).0

pub bit_or-zero : (x : ℕ) → bit_or x 0 ≡ x
bit_or-zero x = (below_zero x x (le_refl x)).1

-- A mask of `k` ones keeps what fits in `k` bits.
pub bit_and-ones : (k r : ℕ) → r < 2 ^ k → bit_and r (2 ^ k - 1) ≡ r
bit_and-ones zero zero h = refl
bit_and-ones zero (suc r) h = absurd (omega arith)
bit_and-ones (suc k) r h = omega (
  arith,
  bit_and_digit r (2 ^ suc k - 1),
  halved,
  odd,
  ap (λ (t : ℕ). bit_and (r / 2) t) halved,
  bit_and-ones k (r / 2) (half_lt r k h),
)
  where
    halved : (2 ^ suc k - 1) / 2 ≡ 2 ^ k - 1
    halved = omega (arith, pow-suc 2 k, one-le-pow k 2)

    odd : (2 ^ suc k - 1) % 2 ≡ 1
    odd = omega (arith, pow-suc 2 k, one-le-pow k 2)

-- A function on a small range that a table of its values determines.
abbrev pub agree : (ℕ → ℕ) → (ℕ → ℕ) → ℕ → Bool
agree f g zero = true
agree f g (suc n) = elim (compare (f n) (g n)) [ Ordering.eq ↦ true | _ ↦ false ] && agree f g n

pub agree→eq : (f g : ℕ → ℕ) (n i : ℕ) → agree f g n ≡ true → i < n → f i ≡ g i
agree→eq f g zero i h lt = absurd (omega arith)
agree→eq f g (suc n) i h lt = ground (arith, agree→eq f g n i)

-- The masks on one byte, each from its table.
pub top_bit : (b : ℕ) → b < 256 → bit_and b 0x80 ≡ b / 128 * 128
top_bit b = agree→eq (λ x. bit_and x 0x80) (λ x. x / 128 * 128) 256 b refl

pub bit_6 : (b : ℕ) → b < 256 → bit_and b 0x40 ≡ b / 64 % 2 * 64
bit_6 b = agree→eq (λ x. bit_and x 0x40) (λ x. x / 64 % 2 * 64) 256 b refl

pub bit_5 : (b : ℕ) → b < 256 → bit_and b 0x20 ≡ b / 32 % 2 * 32
bit_5 b = agree→eq (λ x. bit_and x 0x20) (λ x. x / 32 % 2 * 32) 256 b refl

pub bit_4 : (b : ℕ) → b < 256 → bit_and b 0x10 ≡ b / 16 % 2 * 16
bit_4 b = agree→eq (λ x. bit_and x 0x10) (λ x. x / 16 % 2 * 16) 256 b refl

pub low_4 : (b : ℕ) → b < 256 → bit_and b 0x0f ≡ b % 16
low_4 b = agree→eq (λ x. bit_and x 0x0f) (λ x. x % 16) 256 b refl

pub low_7 : (b : ℕ) → b < 256 → bit_and b 0x7f ≡ b % 128
low_7 b = agree→eq (λ x. bit_and x 0x7f) (λ x. x % 128) 256 b refl

-- Setting the top bit of a value of seven bits adds it.
pub set_top_bit : (b : ℕ) → b < 128 → bit_or b 0x80 ≡ b + 128
set_top_bit b = agree→eq (λ x. bit_or x 0x80) (λ x. x + 128) 128 b refl
