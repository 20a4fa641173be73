-- ===== src/Prelude/Xor.antt =====
-- The exclusive or of native numbers and, digit by digit, of byte strings.
use Prim.Native.Nat.{
  ℕ, zero, suc, ◌+◌, ◌*◌, ◌/◌, ◌%◌, ◌≤◌, ◌<◌, bit_xor, bit_xor-bitwise, digits, differ,
}
use mathlib.Core.Path.{◌≡◌, refl, sym, ap}
use mathlib.Core.List.{List, [], ◌∷◌, ◌++◌}
use native.Mathlib.Omega.{arith}
use trustmem.Prelude.Lists.{length}

differ_mod : (x y : ℕ) → x < 2 → y < 2 → differ x y ≡ (x + y) % 2
differ_mod zero zero p q = refl
differ_mod zero (suc zero) p q = refl
differ_mod (suc zero) zero p q = refl
differ_mod (suc zero) (suc zero) p q = refl
differ_mod (suc (suc x)) y p q = absurd (omega arith)
differ_mod x (suc (suc y)) p q = absurd (omega arith)

-- The digits that `bit_xor` runs through, on a count of them.
abbrev run : ℕ → ℕ → ℕ → ℕ
run n a b = digits (λ r. r) differ n a b

run_count : (n m a b : ℕ) → a ≤ n → a ≤ m → run n a b ≡ run m a b
run_count zero zero a b p q = refl
run_count zero (suc m) zero b p q = refl
run_count zero (suc m) (suc a) b p q = absurd (omega arith)
run_count (suc n) zero zero b p q = refl
run_count (suc n) zero (suc a) b p q = absurd (omega arith)
run_count (suc n) (suc m) zero b p q = refl
run_count (suc n) (suc m) (suc a) b p q =
    omega (arith, run_count n m (suc a / 2) (b / 2) (omega arith) (omega arith))

zero-bit_xor : (b : ℕ) → bit_xor 0 b ≡ b
zero-bit_xor b = bit_xor-bitwise 0 b

-- The lowest digit, and the others.
step : (a b : ℕ) → bit_xor a b ≡ bit_xor (a / 2) (b / 2) * 2 + (a % 2 + b % 2) % 2
step zero b = omega (arith, zero-bit_xor b, zero-bit_xor (b / 2))
step (suc a) b = omega (
  arith,
  bit_xor-bitwise (suc a) b,
  bit_xor-bitwise (suc a / 2) (b / 2),
  run_count a (suc a / 2) (suc a / 2) (b / 2) (omega arith) (omega arith),
  differ_mod (suc a % 2) (b % 2) (omega arith) (omega arith),
)

comm_below : (k a b : ℕ) → a ≤ k → b ≤ k → bit_xor a b ≡ bit_xor b a
comm_below zero zero zero p q = refl
comm_below zero (suc a) b p q = absurd (omega arith)
comm_below zero zero (suc b) p q = absurd (omega arith)
comm_below (suc k) a b p q =
    omega (arith, step a b, step b a, comm_below k (a / 2) (b / 2) (omega arith) (omega arith))

self_below : (k a : ℕ) → a ≤ k → bit_xor a a ≡ 0
self_below zero zero p = refl
self_below zero (suc a) p = absurd (omega arith)
self_below (suc k) a p = omega (arith, step a a, self_below k (a / 2) (omega arith))

assoc_below :
    (k a b c : ℕ) → a ≤ k → b ≤ k → c ≤ k → bit_xor (bit_xor a b) c ≡ bit_xor a (bit_xor b c)
assoc_below zero zero zero zero p q r = refl
assoc_below zero (suc a) b c p q r = absurd (omega arith)
assoc_below zero zero (suc b) c p q r = absurd (omega arith)
assoc_below zero zero zero (suc c) p q r = absurd (omega arith)
assoc_below (suc k) a b c p q r =
    let ih = assoc_below k (a / 2) (b / 2) (c / 2) (omega arith) (omega arith) (omega arith) in
    let left : bit_xor a b / 2 ≡ bit_xor (a / 2) (b / 2) = omega (arith, step a b) in
    let right : bit_xor b c / 2 ≡ bit_xor (b / 2) (c / 2) = omega (arith, step b c) in
    let outer = step (bit_xor a b) c in
    let inner = step a (bit_xor b c) in
    omega (arith, step a b, step b c, rw left at outer, rw right at inner, ih)

module _ (a b : ℕ) where
  pub bit_xor_comm : bit_xor a b ≡ bit_xor b a
  bit_xor_comm = comm_below (a + b) a b (omega arith) (omega arith)

pub bit_xor_assoc : (a b c : ℕ) → bit_xor (bit_xor a b) c ≡ bit_xor a (bit_xor b c)
bit_xor_assoc a b c = assoc_below (a + b + c) a b c (omega arith) (omega arith) (omega arith)

pub bit_xor_cancel : (a c : ℕ) → bit_xor a (bit_xor c a) ≡ c
bit_xor_cancel a c =
    rw (bit_xor_comm c a, sym (bit_xor_assoc a a c), self_below a a (omega arith)) (zero-bit_xor c)

-- Byte by byte, as long as both last.
unfoldable pub xor : List ℕ → List ℕ → List ℕ
xor [] b = []
xor (x ∷ a) [] = []
xor (x ∷ a) (y ∷ b) = bit_xor x y ∷ xor a b

-- The first text of bytes with each of the others in turn.
unfoldable pub xor_all : List ℕ → List (List ℕ) → List ℕ
xor_all out [] = out
xor_all out (p ∷ parts) = xor_all (xor out p) parts

pub xor_assoc : (a b c : List ℕ) → xor (xor a b) c ≡ xor a (xor b c)
unfolding xor
xor_assoc [] b c = refl
xor_assoc (x ∷ a) [] c = refl
xor_assoc (x ∷ a) (y ∷ b) [] = refl
xor_assoc (x ∷ a) (y ∷ b) (z ∷ c) = cc (bit_xor_assoc x y z, xor_assoc a b c)

pub xor_cancel : (a c : List ℕ) → length a ≡ length c → xor a (xor c a) ≡ c
unfolding xor
xor_cancel [] [] e = refl
xor_cancel [] (z ∷ c) e = absurd (omega (arith, e))
xor_cancel (x ∷ a) [] e = absurd (omega (arith, e))
xor_cancel (x ∷ a) (z ∷ c) e = cc (bit_xor_cancel x z, xor_cancel a c (omega (arith, e)))

pub length-xor : (a b : List ℕ) → length a ≡ length b → length (xor a b) ≡ length a
unfolding xor
length-xor [] b e = refl
length-xor (x ∷ a) [] e = absurd (omega (arith, e))
length-xor (x ∷ a) (y ∷ b) e = ap suc (length-xor a b (omega (arith, e)))

pub xor_all-xor :
    (a b : List ℕ) (parts : List (List ℕ)) → xor_all (xor a b) parts ≡ xor a (xor_all b parts)
unfolding xor_all
xor_all-xor a b [] = refl
xor_all-xor a b (p ∷ parts) = rw (xor_assoc a b p) (xor_all-xor a (xor b p) parts)

pub xor_all-append :
    (a : List ℕ) (parts : List (List ℕ)) (p : List ℕ)
    → xor_all a (parts ++ (p ∷ [])) ≡ xor (xor_all a parts) p
unfolding xor_all
xor_all-append a [] p = refl
xor_all-append a (q ∷ parts) p = xor_all-append (xor a q) parts p
