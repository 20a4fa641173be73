-- ===== src/Vars/Capacity.antt =====
-- The capacity of an answer is the least number of bits that tells its values apart.
use Prim.Native.Nat.add
use native.Mathlib.Nat.{add-zero, add-suc, suc-add, two-pow-succ}
use trustmem.Prelude.{
  ℕ, zero, suc, ◌+◌, ◌-◌, ◌/◌, leb→le, leb_false→lt, ltb→lt, ltb_false→le, ◌^◌, ◌≤◌, ◌<◌, ◌≡◌, ◌⊎◌,
  refl, leb, ltb, arith, Bool-cases, inl, inr, max, List, String, length,
}
use trustmem.Result.{ok}
use trustmem.Vars.{log2_from, ceil_log2, bits_for, VType, bits, capacity_of}

-- The exponent reaches `n`, and none below it does.
abbrev IsLeast : ℕ → ℕ → Type 0
IsLeast n r = (n ≤ 2 ^ r) × ((j : ℕ) → suc j ≡ r → 2 ^ j < n)

below_pow : (n : ℕ) → n < 2 ^ n
below_pow zero = omega arith
below_pow (suc n) = rw two-pow-succ (omega (arith, below_pow n))

log2_from-IsLeast :
    (fuel k n : ℕ)
    → n ≤ 2 ^ (fuel + k)
    → ((j : ℕ) → suc j ≡ k → 2 ^ j < n)
    → IsLeast n (log2_from fuel k n)
unfolding log2_from
log2_from-IsLeast zero k n enough below = (rw add.zero at enough, below)
log2_from-IsLeast (suc fuel) k n enough below = elim (Bool-cases (leb n (2 ^ k))) [
  | inl reached ↦ rw (reached, log2_from) (leb→le _ _ reached, below)
  | inr more ↦
      rw (more, log2_from)
        (log2_from-IsLeast fuel (suc k) n (rw add-suc (rw suc-add at enough))
          (λ j e. let same : j ≡ k = omega arith in rw same (leb_false→lt _ _ more)))
]

ceil_log2-IsLeast : (n : ℕ) → IsLeast n (ceil_log2 n)
unfolding ceil_log2
ceil_log2-IsLeast n =
    log2_from-IsLeast n 0 n (rw add-zero (let h = below_pow n in omega (arith, h)))
      (λ j e. absurd (omega arith))

-- Enough bits for `m` answers, at least one bit, and no bit to spare beyond that.
abbrev pub LeastBits : ℕ → ℕ → Type 0
LeastBits m n = (m ≤ 2 ^ n) × (1 ≤ n) × ((n ≡ 1) ⊎ (2 ^ (n - 1) < m))

no_spare : (m n : ℕ) → 1 ≤ n → ((j : ℕ) → suc j ≡ n → 2 ^ j < m) → (n ≡ 1) ⊎ (2 ^ (n - 1) < m)
no_spare m zero h below = absurd (omega arith)
no_spare m (suc zero) h below = inl refl
no_spare m (suc (suc j)) h below =
    let e : suc (suc j) - 1 ≡ suc j = omega arith in rw e (inr (below (suc j) refl))

pow_gt_one : (n m : ℕ) → 1 < m → m ≤ 2 ^ n → 1 ≤ n
pow_gt_one zero m h k = absurd (omega arith)
pow_gt_one (suc n) m h k = omega arith

bits_for-LeastBits : (m : ℕ) → LeastBits m (bits_for (max 1 m))
unfolding bits_for
bits_for-LeastBits m = elim (Bool-cases (ltb 1 m)) [
  | inl many ↦
      let h = ltb→lt _ _ many in
      let e : max 1 m ≡ m = omega arith in
      let least = ceil_log2-IsLeast m in
      let one = pow_gt_one _ m h least.0 in rw (e, many) (least.0, one, no_spare m _ one least.1)
  | inr few ↦
      let h = ltb_false→le _ _ few in
      let e : max 1 m ≡ 1 = omega arith in rw e (omega arith, omega arith, inl refl)
]

-- An enumeration, and a range with a positive step, are charged the least number of bits, at least
-- one, that tells their answers apart.
pub capacity_of-LeastBits :
    (options : List String) (lo hi step : ℕ)
    → ((n : ℕ) × (capacity_of (VType.enum options) ≡ ok (bits n)) × LeastBits (length options) n)
      × ((n : ℕ) × (capacity_of (VType.number lo hi (suc step)) ≡ ok (bits n))
          × LeastBits ((hi - lo) / suc step + 1) n)
unfolding capacity_of
capacity_of-LeastBits options lo hi step = (
  (_, refl, bits_for-LeastBits (length options)),
  (_, refl, bits_for-LeastBits ((hi - lo) / suc step + 1)),
)
