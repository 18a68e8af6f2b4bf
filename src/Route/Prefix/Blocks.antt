-- ===== src/Route/Prefix/Blocks.antt =====
-- The arithmetic behind `prefix_mask`: masking an address selects the aligned block that it lies in,
-- and two aligned blocks are nested or apart.
use native.Mathlib.Nat.{
  add-mod_right, div-add-mod', div-eq_of_lt-le, lt_of_mul-lt-mul_right, mul-div_cancel,
  mul-le-mul_right, mul-mod_left, one-le-pow, pow-suc, pow-zero,
}
use h_openconnect.Base.{ℕ, zero, suc, ◌+◌, ◌-◌, ◌*◌, ◌/◌, ◌%◌, ◌^◌, ◌≤◌, ◌<◌, ◌≡◌, ap, ◌∙◌, arith}

pub pow-pos : (k : ℕ) → 0 < 2 ^ k
pow-pos k = one-le-pow k 2 (omega arith)

pub aligned : (c n : ℕ) → n % c ≡ 0 → n / c * c ≡ n
aligned c n al = omega (arith, div-add-mod' n c)

-- An aligned block that holds `x` is the block of `x`.
pub block_unique : (c x n : ℕ) → 0 < c → n % c ≡ 0 → n ≤ x → x < n + c → x / c * c ≡ n
block_unique c x n pos al lo hi =
    ap (λ (q : ℕ). q * c)
      (div-eq_of_lt-le {k = n / c} c {m = x} (omega (arith, aligned c n al))
        (omega (arith, aligned c n al)))
    ∙ aligned c n al

-- Aligned blocks of sizes `s` and `k * s` that share a point are nested.
pub block_nested :
    (s k n m x : ℕ)
    → 0 < s
    → n % s ≡ 0
    → m % (k * s) ≡ 0
    → n ≤ x
    → x < n + s
    → m ≤ x
    → x < m + k * s
    → (m ≤ n) × (n + s ≤ m + k * s)
block_nested s k n m x pos al bl nx xn mx xm =
    let a = n / s in
    let b = m / (k * s) * k in
    let na = aligned s n al in
    let mb = aligned (k * s) m bl in
    let below : b < a + 1 = lt_of_mul-lt-mul_right s (omega arith) in
    let above : a < b + k = lt_of_mul-lt-mul_right s (omega arith) in
    let lower : b * s ≤ a * s = mul-le-mul_right s (omega arith) in
    let upper : (a + 1) * s ≤ (b + k) * s = mul-le-mul_right s (omega arith) in
    (omega arith, omega arith)

pow-add : (i j : ℕ) → 2 ^ (i + j) ≡ 2 ^ i * 2 ^ j
pow-add i zero = let e : i + zero ≡ i = omega arith in rw (e, pow-zero 2) (omega arith)
pow-add i (suc j) =
    let e : i + suc j ≡ suc (i + j) = omega arith in
    rw (e, pow-suc 2 (i + j), pow-suc 2 j) (omega (arith, ap (λ (t : ℕ). t * 2) (pow-add i j)))

pub pow-split : (w b c : ℕ) → b ≤ c → c ≤ w → 2 ^ (w - b) ≡ 2 ^ (c - b) * 2 ^ (w - c)
pow-split w b c h k =
    let e : w - b ≡ (c - b) + (w - c) = omega arith in rw e (pow-add (c - b) (w - c))

pub pow-double : (w b : ℕ) → b < w → 2 ^ (w - b) ≡ 2 * 2 ^ (w - (b + 1))
pow-double w b h =
    let e : w - b ≡ suc (w - (b + 1)) = omega arith in rw (e, pow-suc 2 _) (omega arith)

-- Two aligned blocks of addresses with prefix lengths `b ≤ c` that share `x` are nested.
pub prefix_nested :
    (w b c m n x : ℕ)
    → b ≤ c
    → c ≤ w
    → m % 2 ^ (w - b) ≡ 0
    → n % 2 ^ (w - c) ≡ 0
    → m ≤ x
    → x < m + 2 ^ (w - b)
    → n ≤ x
    → x < n + 2 ^ (w - c)
    → (m ≤ n) × (n + 2 ^ (w - c) ≤ m + 2 ^ (w - b))
prefix_nested w b c m n x h k bl al mx xm nx xn =
    let e = pow-split w b c h k in
    let bl' : m % (2 ^ (c - b) * 2 ^ (w - c)) ≡ 0 = rw (← e) bl in
    let r =
      block_nested (2 ^ (w - c)) (2 ^ (c - b)) n m x (pow-pos _) al bl' nx xn mx (omega arith) in
    (r.0, omega arith)

-- Half of an aligned block is aligned, and so is the other half.
pub halves_aligned :
    (w b m : ℕ)
    → b < w
    → m % 2 ^ (w - b) ≡ 0
    → (m % 2 ^ (w - (b + 1)) ≡ 0)
      × ((m + 2 ^ (w - (b + 1))) % 2 ^ (w - (b + 1)) ≡ 0)
      × (m / 2 ^ (w - (b + 1)) % 2 ≡ 0)
halves_aligned w b m h al =
    let s = 2 ^ (w - (b + 1)) in
    let q = m / (2 * s) in
    let al' : m % (2 * s) ≡ 0 = rw (← pow-double w b h) al in
    let e : m ≡ (q * 2) * s = omega (arith, aligned (2 * s) m al') in
    let z : m % s ≡ 0 = rw e (mul-mod_left (q * 2) s) in
    let d : m / s ≡ q * 2 =
      ap (λ (t : ℕ). t / s) e ∙ mul-div_cancel (q * 2) (pow-pos (w - (b + 1))) in
    (z, add-mod_right m s ∙ z, rw d (mul-mod_left q 2))
