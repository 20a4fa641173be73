-- ===== src/Policy/Decimals.antt =====
-- core/policy.py: numbers in the names of attributes, as decimals.
use Prim.Native.Char.{Char, code}
use Prim.Native.String.{◌++◌ as append}
use text.Mathlib.TextEquality.{eq_iff}
use text.Mathlib.TextLemmas.{cons-append, nil-append}
use mathlib.Core.Path.{subst}
use mathlib.Core.Option.{get_or}
use trustmem.Prelude.{
  ℕ, zero, suc, ◌+◌, ◌-◌, ◌*◌, ◌/◌, ◌%◌, ◌<◌, ◌≤◌, String, Bool, true, List, [], ◌∷◌, ◌≡◌, refl, ap,
  length, get_elem?, ltb, ltb→lt, ltb_false→le, ◌==◌, str_eq, Bool-cases, inl, inr, arith,
}
use trustmem.Abe.Tokens.{sort_of}
use trustmem.Abe.Spelling.{all_wordly, all_wordly-append}
use trustmem.Policy.Digits.{digits, digit, decimal_from, decimal}

-- A number read back, behind what has been read.
read : ℕ → String → ℕ
read acc String.[] = acc
read acc (String.◌∷◌ c s) = read (acc * 10 + (code c - 48)) s

read-append : (acc : ℕ) (s t : String) → read acc (append s t) ≡ read (read acc s) t
unfolding read
read-append acc String.[] t = rw (nil-append t) refl
read-append acc (String.◌∷◌ c s) t =
    rw (cons-append c s t) (read-append (acc * 10 + (code c - 48)) s t)

module _ (P : ℕ → String → Type 0) where
  abbrev EachFrom : ℕ → List String → Type 0
  EachFrom k [] = Unit
  EachFrom k (s ∷ ss) = P k s × EachFrom (suc k) ss

  each_at :
      (k : ℕ) (ss : List String) (n m : ℕ)
      → EachFrom k ss
      → n < length ss
      → k + n ≡ m
      → P m (get_or (get_elem? ss n) "")
  each_at k [] n m h l e = absurd (omega arith)
  each_at k (s ∷ ss) zero m h l e = subst (λ (x : ℕ). P x s) (omega (arith, e)) (h.0)
  each_at k (s ∷ ss) (suc n) m h l e = each_at (suc k) ss n m (h.1) (omega arith) (omega (arith, e))

abbrev ReadsAs : ℕ → String → Type 0
ReadsAs k s = (acc : ℕ) → read acc s ≡ acc * 10 + k

read-digit : (n acc : ℕ) → n < 10 → read acc (digit n) ≡ acc * 10 + n
unfolding read
read-digit n acc h =
    let each : EachFrom ReadsAs 0 digits = (
      λ a. refl,
      (
        λ a. refl,
        (
          λ a. refl,
          (
            λ a. refl,
            (λ a. refl, (λ a. refl, (λ a. refl, (λ a. refl, (λ a. refl, (λ a. refl, tt)))))),
          ),
        ),
      ),
    ) in
    each_at ReadsAs 0 digits n n each (omega arith) (omega arith) acc

read-decimal_from : (f n : ℕ) → n ≤ f → read 0 (decimal_from f n) ≡ n
unfolding decimal_from
read-decimal_from zero n h = omega (arith, read-digit n 0 (omega arith))
read-decimal_from (suc f) n h = elim (Bool-cases (ltb n 10)) [
  | inl b ↦ rw b (omega (arith, read-digit n 0 (ltb→lt n 10 b)))
  | inr b ↦
      let front = decimal_from f (n / 10) in
      rw b (
        omega (
          arith,
          read-append 0 front (digit (n % 10)),
          read-digit (n % 10) (read 0 front) (omega arith),
          read-decimal_from f (n / 10) (omega (arith, ltb_false→le n 10 b)),
        ))
]

pub str_eq-decimal : (a b : ℕ) → str_eq (decimal a) (decimal b) ≡ (a == b)
unfolding decimal
str_eq-decimal a b =
    let read_a = read-decimal_from a a (omega arith) in
    let read_b = read-decimal_from b b (omega arith) in
    ground (
      arith,
      eq_iff (decimal_from a a) (decimal_from b b),
      read_a,
      read_b,
      λ (e : decimal_from a a ≡ decimal_from b b). ap (read 0) e,
      λ (e : a ≡ b). ap decimal e,
    )

module _ (is_alphanumeric : Char → Bool) where
  abbrev IsWordly : ℕ → String → Type 0
  IsWordly k s = all_wordly is_alphanumeric s ≡ true

  all_wordly-digit : (n : ℕ) → n < 10 → all_wordly is_alphanumeric (digit n) ≡ true
  unfolding all_wordly sort_of
  all_wordly-digit n h =
      let each : EachFrom IsWordly 0 digits =
        (refl, (refl, (refl, (refl, (refl, (refl, (refl, (refl, (refl, (refl, tt)))))))))) in
      each_at IsWordly 0 digits n n each (omega arith) (omega arith)

  all_wordly-decimal_from : (f n : ℕ) → n ≤ f → all_wordly is_alphanumeric (decimal_from f n) ≡ true
  unfolding decimal_from
  all_wordly-decimal_from zero n h = all_wordly-digit n (omega arith)
  all_wordly-decimal_from (suc f) n h = elim (Bool-cases (ltb n 10)) [
    | inl b ↦ rw b (all_wordly-digit n (ltb→lt n 10 b))
    | inr b ↦
        let front = decimal_from f (n / 10) in
        rw
          (
            b,
            all_wordly-append is_alphanumeric front (digit (n % 10)),
            all_wordly-decimal_from f (n / 10) (omega (arith, ltb_false→le n 10 b)),
            all_wordly-digit (n % 10) (omega arith),
          )
          refl
  ]

  pub all_wordly-decimal : (n : ℕ) → all_wordly is_alphanumeric (decimal n) ≡ true
  unfolding decimal
  all_wordly-decimal n = all_wordly-decimal_from n n (omega arith)
