-- ===== src/Kmalloc/Align.antt =====
-- `align_up` of kmalloc/src/lib.rs.
use native.Mathlib.Nat.{pow-suc, one-le-pow, mul-mod_left, mod-lt, div-lt_iff_lt-mul}
use efiks_os.Prelude.{
  ℕ, zero, suc, ◌+◌, ◌-◌, ◌*◌, ◌/◌, ◌%◌, ◌^◌, ◌≤◌, ◌<◌, ◌≡◌, ap, ◌∙◌, arith, bit_and,
}
use efiks_os.Prelude.Bits.{bit_not, bit_and-high_mask}
use efiks_os.Kmalloc.{align_up}

pow-add : (n k : ℕ) → 2 ^ n * 2 ^ k ≡ 2 ^ (n + k)
pow-add zero k = omega (arith, ap (λ (e : ℕ). 2 ^ e) {x = k} {y = 0 + k} (omega arith))
pow-add (suc n) k = omega (
  arith,
  pow-suc 2 n,
  pow-add n k,
  ap (λ (t : ℕ). t * 2 ^ k) (pow-suc 2 n),
  pow-suc 2 (n + k),
  ap (λ (e : ℕ). 2 ^ e) {x = suc n + k} {y = suc (n + k)} (omega arith),
)

pred-mul : (n m : ℕ) → 0 < n → (n - 1) * m + m ≡ n * m
pred-mul zero m h = absurd (omega arith)
pred-mul (suc n) m h = omega (arith, ap (λ (t : ℕ). t * m) {x = suc n - 1} {y = n} (omega arith))

-- A multiple of the alignment that is the least one not below the address.
pub record Aligned (addr align result : ℕ) : Type 0 where
  pub multiple : result % align ≡ 0
  pub lower : addr ≤ result
  pub upper : result < addr + align

-- `align_up` to a power of two that fits `usize`, where the sum fits it too, gives the least multiple
-- that is not below the address.
pub align_up-Aligned :
    (addr k : ℕ) → k < 64 → addr + 2 ^ k ≤ 2 ^ 64 → Aligned addr (2 ^ k) (align_up addr (2 ^ k))
unfolding align_up
align_up-Aligned addr k h fits = rw cleared (record {
  multiple = mul-mod_left (x / 2 ^ k) (2 ^ k);
  lower = omega (arith, positive, below, rest);
  upper = omega (arith, positive, below, rest);
})
  where
    x : ℕ
    x = addr + 2 ^ k - 1

    positive : 0 < 2 ^ k
    positive = omega (arith, one-le-pow k 2)

    rest : x % 2 ^ k < 2 ^ k
    rest = mod-lt x positive

    below : x ≡ x / 2 ^ k * 2 ^ k + x % 2 ^ k
    below = grind arith

    room : 2 ^ (64 - k) * 2 ^ k ≡ 2 ^ 64
    room = pow-add (64 - k) k ∙ ap (λ (e : ℕ). 2 ^ e) {x = 64 - k + k} {y = 64} (omega arith)

    small : x / 2 ^ k < 2 ^ (64 - k)
    small = (div-lt_iff_lt-mul positive).1 (omega (arith, room, positive))

    mask : bit_not 64 (2 ^ k - 1) ≡ (2 ^ (64 - k) - 1) * 2 ^ k
    mask = omega (
      arith,
      room,
      positive,
      pred-mul (2 ^ (64 - k)) (2 ^ k) (omega (arith, one-le-pow (64 - k) 2)),
    )

    cleared : bit_and (addr + 2 ^ k - 1) (bit_not 64 (2 ^ k - 1)) ≡ x / 2 ^ k * 2 ^ k
    cleared = ap (bit_and x) mask ∙ bit_and-high_mask (64 - k) k x small
