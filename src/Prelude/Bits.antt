-- ===== src/Prelude/Bits.antt =====
-- Facts about `bit_and` and `bit_or` at variables: digit by digit, and for words that are split into
-- a high and a low field.
mod Step
use Prim.Native.Nat.{
  ℕ, zero, suc, ◌+◌, ◌-◌, ◌*◌, ◌/◌, ◌%◌, ◌^◌, ◌≤◌, ◌<◌, min, max, bit_and, bit_or, bit_or-bitwise,
}
use mathlib.Core.Path.{◌≡◌, refl, ap, ◌∙◌}
use mathlib.Core.Bool.{true, false}
use native.Mathlib.Nat.{pow-suc, one-le-pow}
use native.Mathlib.Omega.{arith}
use efiks_os.Prelude.Tests.{if◌then◌else◌, ◌==◌, ltb}
use Step.{bit_and_step, bit_or_step}

-- `x >> i`
unfoldable pub shr : ℕ → ℕ → ℕ
shr x zero = x
shr x (suc i) = shr (x / 2) i

-- Binary digit `i`: `(x >> i) & 1`.
unfoldable pub bit : ℕ → ℕ → ℕ
unfolding shr
bit x i = shr x i % 2

-- `!x` on a word of `w` bits, for `x < 2 ^ w`
abbrev pub bit_not : ℕ → ℕ → ℕ
bit_not w x = 2 ^ w - 1 - x

-- A mask without bits, below any bound.
zero_below : (bound x : ℕ) → x < bound → (bit_and x 0 ≡ 0) × (bit_or x 0 ≡ x)
zero_below zero x h = absurd (omega arith)
zero_below (suc bound) zero h = (refl, refl)
zero_below (suc bound) (suc x) h =
    let (cleared, kept) = zero_below bound (suc x / 2) (omega arith) in
    (omega (arith, cleared, bit_and_step (suc x) 0), omega (arith, kept, bit_or_step (suc x) 0))

pub bit_and-zero : (x : ℕ) → bit_and x 0 ≡ 0
bit_and-zero x = (zero_below (suc x) x (omega arith)).0

pub bit_or-zero : (x : ℕ) → bit_or x 0 ≡ x
bit_or-zero x = (zero_below (suc x) x (omega arith)).1

pub bit_or-zero_left : (x : ℕ) → bit_or 0 x ≡ x
bit_or-zero_left x = simp bit_or-bitwise

pub bit_and-one : (x : ℕ) → bit_and x 1 ≡ x % 2
bit_and-one x = let halves = bit_and-zero (x / 2) in omega (arith, halves, bit_and_step x 1)

-- The digits of the operations.
pub bit-bit_and : (a b i : ℕ) → bit (bit_and a b) i ≡ min (bit a i) (bit b i)
unfolding bit
bit-bit_and a b zero = omega (arith, bit_and_step a b)
bit-bit_and a b (suc i) =
    ap (λ x. shr x i % 2) {x = bit_and a b / 2} {y = bit_and (a / 2) (b / 2)}
      (omega (arith, bit_and_step a b))
    ∙ bit-bit_and (a / 2) (b / 2) i

pub bit-bit_or : (a b i : ℕ) → bit (bit_or a b) i ≡ max (bit a i) (bit b i)
unfolding bit
bit-bit_or a b zero = omega (arith, bit_or_step a b)
bit-bit_or a b (suc i) =
    ap (λ x. shr x i % 2) {x = bit_or a b / 2} {y = bit_or (a / 2) (b / 2)}
      (omega (arith, bit_or_step a b))
    ∙ bit-bit_or (a / 2) (b / 2) i

pub bit-zero : (i : ℕ) → bit 0 i ≡ 0
unfolding bit
bit-zero zero = refl
bit-zero (suc i) = bit-zero i

pub bit-pow : (k i : ℕ) → bit (2 ^ k) i ≡ (if k == i then 1 else 0)
unfolding bit
bit-pow zero zero = refl
bit-pow zero (suc i) = bit-zero i ∙ ground arith
bit-pow (suc k) zero = ground (arith, pow-suc 2 k)
bit-pow (suc k) (suc i) =
    ap (λ x. shr x i % 2) {x = 2 ^ suc k / 2} {y = 2 ^ k} (omega (arith, pow-suc 2 k))
    ∙ bit-pow k i
    ∙ ground arith

pub bit-bit_not : (w x i : ℕ) → x < 2 ^ w → i < w → bit (bit_not w x) i ≡ 1 - bit x i
unfolding bit
bit-bit_not zero x i h hi = absurd (omega arith)
bit-bit_not (suc w) x zero h hi = omega (arith, pow-suc 2 w)
bit-bit_not (suc w) x (suc i) h hi =
    ap (λ y. shr y i % 2) {x = bit_not (suc w) x / 2} {y = bit_not w (x / 2)}
      (omega (arith, pow-suc 2 w))
    ∙ bit-bit_not w (x / 2) i (omega (arith, pow-suc 2 w)) (omega arith)

pub bit_lt : (x i : ℕ) → bit x i < 2
unfolding bit
bit_lt x i = omega arith

double : (a k : ℕ) → a * 2 ^ suc k ≡ 2 * (a * 2 ^ k)
double a k = omega (arith, ap (λ (t : ℕ). a * t) (pow-suc 2 k))

cong₂ : (f : ℕ → ℕ → ℕ) {x y u v : ℕ} → x ≡ y → u ≡ v → f x u ≡ f y v
cong₂ f p q = λ i. f (p i) (q i)

-- Half of a split word is the word split one digit lower.
half_fields : (k a b : ℕ) → (a * 2 ^ suc k + b) / 2 ≡ a * 2 ^ k + b / 2
half_fields k a b = omega (arith, double a k)

-- Operations on words that are split at bit `k` work on each field.
pub bit_and_fields :
    (k a b c d : ℕ)
    → b < 2 ^ k
    → d < 2 ^ k
    → bit_and (a * 2 ^ k + b) (c * 2 ^ k + d) ≡ bit_and a c * 2 ^ k + bit_and b d
bit_and_fields zero a zero c zero hb hd =
    cong₂ bit_and {x = a * 1 + 0} {y = a} {u = c * 1 + 0} {v = c} (omega arith) (omega arith)
    ∙ omega arith
bit_and_fields zero a (suc b) c d hb hd = absurd (omega arith)
bit_and_fields zero a b c (suc d) hb hd = absurd (omega arith)
bit_and_fields (suc k) a b c d hb hd = omega (
  arith,
  bit_and_step (a * 2 ^ suc k + b) (c * 2 ^ suc k + d),
  cong₂ bit_and (half_fields k a b) (half_fields k c d),
  bit_and_fields k a (b / 2) c (d / 2) (omega (arith, pow-suc 2 k)) (omega (arith, pow-suc 2 k)),
  bit_and_step b d,
  double a k,
  double c k,
  double (bit_and a c) k,
)

pub bit_or_fields :
    (k a b c d : ℕ)
    → b < 2 ^ k
    → d < 2 ^ k
    → bit_or (a * 2 ^ k + b) (c * 2 ^ k + d) ≡ bit_or a c * 2 ^ k + bit_or b d
bit_or_fields zero a zero c zero hb hd =
    cong₂ bit_or {x = a * 1 + 0} {y = a} {u = c * 1 + 0} {v = c} (omega arith) (omega arith)
    ∙ omega arith
bit_or_fields zero a (suc b) c d hb hd = absurd (omega arith)
bit_or_fields zero a b c (suc d) hb hd = absurd (omega arith)
bit_or_fields (suc k) a b c d hb hd = omega (
  arith,
  bit_or_step (a * 2 ^ suc k + b) (c * 2 ^ suc k + d),
  cong₂ bit_or (half_fields k a b) (half_fields k c d),
  bit_or_fields k a (b / 2) c (d / 2) (omega (arith, pow-suc 2 k)) (omega (arith, pow-suc 2 k)),
  bit_or_step b d,
  double a k,
  double c k,
  double (bit_or a c) k,
)

-- A mask of the `k` lowest bits keeps a number that fits them.
bit_and_fits : (k b : ℕ) → b < 2 ^ k → bit_and b (2 ^ k - 1) ≡ b
bit_and_fits zero b h = bit_and-zero b ∙ omega arith
bit_and_fits (suc k) b h = omega (
  arith,
  pow-suc 2 k,
  bit_and_step b (2 ^ suc k - 1),
  ap (bit_and (b / 2)) {x = (2 ^ suc k - 1) / 2} {y = 2 ^ k - 1}
      (omega (arith, pow-suc 2 k, one-le-pow k 2)),
  bit_and_fits k (b / 2) (omega (arith, pow-suc 2 k)),
  one-le-pow k 2,
)

-- It keeps the low field of a split word, and its complement keeps the high field.
pub bit_and-low_field : (k a b : ℕ) → b < 2 ^ k → bit_and (a * 2 ^ k + b) (2 ^ k - 1) ≡ b
bit_and-low_field k a b h = omega (
  arith,
  bit_and_fields k a b 0 (2 ^ k - 1) h (omega (arith, one-le-pow k 2)),
  ap (bit_and (a * 2 ^ k + b)) {x = 0 * 2 ^ k + (2 ^ k - 1)} {y = 2 ^ k - 1} (omega arith),
  ap (λ (t : ℕ). t * 2 ^ k) (bit_and-zero a),
  bit_and_fits k b h,
)

pub bit_and-high_field :
    (n k a b : ℕ)
    → a < 2 ^ n
    → b < 2 ^ k
    → bit_and (a * 2 ^ k + b) ((2 ^ n - 1) * 2 ^ k) ≡ a * 2 ^ k
bit_and-high_field n k a b ha hb = omega (
  arith,
  bit_and_fields k a b (2 ^ n - 1) 0 hb (omega (arith, one-le-pow k 2)),
  ap (bit_and (a * 2 ^ k + b)) {x = (2 ^ n - 1) * 2 ^ k + 0} {y = (2 ^ n - 1) * 2 ^ k}
      (omega arith),
  ap (λ (t : ℕ). t * 2 ^ k) (bit_and_fits n a ha),
  bit_and-zero b,
)

-- Dividing with remainder splits a word.
split_word : (k x : ℕ) → x ≡ x / 2 ^ k * 2 ^ k + x % 2 ^ k
split_word k x = grind arith

pub bit_and-low_mask : (k x : ℕ) → bit_and x (2 ^ k - 1) ≡ x % 2 ^ k
bit_and-low_mask k x =
    ap (λ y. bit_and y (2 ^ k - 1)) (split_word k x)
    ∙ bit_and-low_field k (x / 2 ^ k) (x % 2 ^ k) (omega (arith, one-le-pow k 2))

-- `x & !(2 ^ k - 1)` on a word of `n + k` bits
pub bit_and-high_mask :
    (n k x : ℕ) → x / 2 ^ k < 2 ^ n → bit_and x ((2 ^ n - 1) * 2 ^ k) ≡ x / 2 ^ k * 2 ^ k
bit_and-high_mask n k x h =
    ap (λ y. bit_and y ((2 ^ n - 1) * 2 ^ k)) (split_word k x)
    ∙ bit_and-high_field n k (x / 2 ^ k) (x % 2 ^ k) h (omega (arith, one-le-pow k 2))

-- A mask of one bit.
pub bit_and-pow : (x k : ℕ) → bit_and x (2 ^ k) ≡ bit x k * 2 ^ k
unfolding bit
bit_and-pow x zero = bit_and-one x ∙ omega arith
bit_and-pow x (suc k) = omega (
  arith,
  bit_and_step x (2 ^ suc k),
  ap (bit_and (x / 2)) {x = 2 ^ suc k / 2} {y = 2 ^ k} (omega (arith, pow-suc 2 k)),
  bit_and-pow (x / 2) k,
  double (bit (x / 2) k) k,
  pow-suc 2 k,
)

pub bit_clear : (x k : ℕ) → (bit_and x (2 ^ k) == 0) ≡ true → bit x k ≡ 0
bit_clear x k h = grind (arith, bit_and-pow x k, one-le-pow k 2, bit_lt x k)

pub bit_set : (x k : ℕ) → (bit_and x (2 ^ k) == 0) ≡ false → bit x k ≡ 1
bit_set x k h = grind (arith, bit_and-pow x k, bit_lt x k)

-- `x | 1 << k` and `x & !(1 << k)`, digit by digit.
pub bit-bit_or-pow : (x k i : ℕ) → bit (bit_or x (2 ^ k)) i ≡ (if k == i then 1 else bit x i)
bit-bit_or-pow x k i = ground (arith, bit-bit_or x (2 ^ k) i, bit-pow k i, bit_lt x i)

pow_lt : (k w : ℕ) → k < w → 2 ^ k < 2 ^ w
pow_lt zero (suc w) h = omega (arith, pow-suc 2 w, one-le-pow w 2)
pow_lt (suc k) (suc w) h = omega (arith, pow-suc 2 w, pow-suc 2 k, pow_lt k w (omega arith))
pow_lt k zero h = absurd (omega arith)

pub bit-clear_pow :
    (w x k i : ℕ)
    → k < w
    → i < w
    → bit (bit_and x (bit_not w (2 ^ k))) i ≡ (if k == i then 0 else bit x i)
bit-clear_pow w x k i hk hi = ground (
  arith,
  bit-bit_and x (bit_not w (2 ^ k)) i,
  bit-bit_not w (2 ^ k) i (pow_lt k w hk) hi,
  bit-pow k i,
  bit_lt x i,
)

-- Neither operation needs more bits than its arguments.
pub bit_or-lt : (k a b : ℕ) → a < 2 ^ k → b < 2 ^ k → bit_or a b < 2 ^ k
bit_or-lt zero zero zero ha hb = omega arith
bit_or-lt zero zero (suc b) ha hb = absurd (omega arith)
bit_or-lt zero (suc a) b ha hb = absurd (omega arith)
bit_or-lt (suc k) a b ha hb = omega (
  arith,
  pow-suc 2 k,
  bit_or_step a b,
  bit_or-lt k (a / 2) (b / 2) (omega (arith, pow-suc 2 k)) (omega (arith, pow-suc 2 k)),
)
