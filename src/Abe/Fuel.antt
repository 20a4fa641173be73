-- ===== src/Abe/Fuel.antt =====
-- core/crypto/abe.py: both descents end on every list of words within the fuel they are given.
use mathlib.Core.Logic.{◌≢◌}
use trustmem.Prelude.{
  ℕ, zero, suc, ◌+◌, ◌*◌, ◌<◌, ◌≤◌, String, Bool, true, false, List, [], ◌∷◌, ◌++◌, length, str_eq,
  ◌≡◌, refl, all, nonempty, all-append, add, contains, and_left, and_right, if◌then◌else◌, arith,
}
use trustmem.Abe.Grammar.{
  Parsed, parsed, failed, out_of_fuel, and_then, is_or, is_and, close, eval_or, product, joined,
  union, parse_or, parse_or_loop, parse_and, parse_and_loop, parse_factor, enough,
}
use trustmem.Abe.Agreement.{Agrees, same, both_failed, both_out, or-Agrees}

-- The descent ends, and leaves fewer than `n` words if it succeeds,
-- and a family of sets then has no empty one.
pub data EndsWithin (n : ℕ) : Parsed (List (List String)) → Type 0 where
  leaves :
      {s : List (List String)} {ts : List String}
      → all nonempty s ≡ true
      → length ts < n
      → EndsWithin n (parsed s ts)
  fails : EndsWithin n failed

EndsWithin-then :
    {n m : ℕ} {r : Parsed (List (List String))}
    {k : List (List String) → List String → Parsed (List (List String))}
    → EndsWithin n r
    → ((s : List (List String)) (ts : List String)
        → all nonempty s ≡ true
        → length ts < n
        → EndsWithin m (k s ts))
    → EndsWithin m (and_then r k)
EndsWithin-then (leaves {s} {ts} e h) step = step s ts e h
EndsWithin-then fails step = fails

EndsWithin-if :
    {n : ℕ} (c : Bool) {r q : Parsed (List (List String))}
    → EndsWithin n r
    → EndsWithin n q
    → EndsWithin n (if c then r else q)
EndsWithin-if true h k = h
EndsWithin-if false h k = k

length-close : (ts : List String) → length (close ts) ≤ length ts
length-close [] = omega arith
length-close (t ∷ ts) = ground arith

nonempty-add : (x : String) (a : List String) → nonempty (add x a) ≡ true
unfolding add contains
nonempty-add x [] = refl
nonempty-add x (y ∷ a) = ground arith

nonempty-union : (a b : List String) → nonempty a ≡ true → nonempty (union a b) ≡ true
unfolding union
nonempty-union [] b h = absurd (cc h)
nonempty-union (x ∷ a) b h = nonempty-add x (union a b)

joined-nonempty :
    (a : List String) (s : List (List String))
    → nonempty a ≡ true
    → all nonempty (joined a s) ≡ true
unfolding joined
joined-nonempty a [] h = refl
joined-nonempty a (b ∷ s) h = ground (arith, nonempty-union a b h, joined-nonempty a s h)

product-nonempty :
    (s t : List (List String)) → all nonempty s ≡ true → all nonempty (product s t) ≡ true
unfolding product
product-nonempty [] t h = refl
product-nonempty (a ∷ s) t h = ground (
  arith,
  all-append nonempty (joined a t) (product s t),
  joined-nonempty a t (and_left (nonempty a) (all nonempty s) h),
  product-nonempty s t (and_right (nonempty a) (all nonempty s) h),
)

mutual
  unfolding parse_or

  pub or_ends :
      (f : ℕ) (ts : List String) → 3 * length ts + 3 ≤ f → EndsWithin (length ts) (parse_or f ts)
  or_ends zero ts h = absurd (omega arith)
  or_ends (suc f) ts h =
      EndsWithin-then (and_ends f ts (omega arith))
        λ s rest e k. or_loop_ends (length ts) f s rest e (omega arith) (omega arith)

  or_loop_ends :
      (n f : ℕ) (s : List (List String)) (ts : List String)
      → all nonempty s ≡ true
      → length ts < n
      → 3 * length ts + 1 ≤ f
      → EndsWithin n (parse_or_loop f s ts)
  or_loop_ends n zero s ts e k h = absurd (omega arith)
  or_loop_ends n (suc f) s [] e k h = leaves e k
  or_loop_ends n (suc f) s (t ∷ ts) e k h =
      EndsWithin-if (is_or t)
        (EndsWithin-then (and_ends f ts (omega arith)) λ q rest d l.
          or_loop_ends n f (s ++ q) rest (cc (all-append nonempty s q, e, d)) (omega arith)
            (omega arith))
        (leaves e k)

  and_ends :
      (f : ℕ) (ts : List String) → 3 * length ts + 2 ≤ f → EndsWithin (length ts) (parse_and f ts)
  and_ends zero ts h = absurd (omega arith)
  and_ends (suc f) ts h =
      EndsWithin-then (factor_ends f ts (omega arith))
        λ s rest e k. and_loop_ends (length ts) f s rest e (omega arith) (omega arith)

  and_loop_ends :
      (n f : ℕ) (s : List (List String)) (ts : List String)
      → all nonempty s ≡ true
      → length ts < n
      → 3 * length ts + 1 ≤ f
      → EndsWithin n (parse_and_loop f s ts)
  and_loop_ends n zero s ts e k h = absurd (omega arith)
  and_loop_ends n (suc f) s [] e k h = leaves e k
  and_loop_ends n (suc f) s (t ∷ ts) e k h =
      EndsWithin-if (is_and t)
        (EndsWithin-then (factor_ends f ts (omega arith)) λ q rest d l.
          and_loop_ends n f (product s q) rest (product-nonempty s q e) (omega arith) (omega arith))
        (leaves e k)

  factor_ends :
      (f : ℕ) (ts : List String)
      → 3 * length ts + 1 ≤ f
      → EndsWithin (length ts) (parse_factor f ts)
  factor_ends zero ts h = absurd (omega arith)
  factor_ends (suc f) [] h = fails
  factor_ends (suc f) (t ∷ ts) h =
      EndsWithin-if (str_eq t "(")
        (EndsWithin-then (or_ends f ts (omega arith))
          λ s rest e k. leaves e (omega (arith, length-close rest)))
        (leaves refl (omega arith))

EndsWithin-not_out : {n : ℕ} {r : Parsed (List (List String))} → EndsWithin n r → r ≢ out_of_fuel
EndsWithin-not_out (leaves d h) e = cc e
EndsWithin-not_out fails e = cc e

Agrees-not_out :
    (attributes : List String) {n : ℕ} {r : Parsed Bool} {q : Parsed (List (List String))}
    → Agrees attributes r q
    → EndsWithin n q
    → r ≢ out_of_fuel
Agrees-not_out attributes (same d) h e = cc e
Agrees-not_out attributes both_failed h e = cc e
Agrees-not_out attributes both_out h e = elim h [ ]

-- On any list of words, both descents end within the fuel that the program's functions give them:
-- the expansion and, for any attributes, the evaluation.
pub descents_end :
    (attributes ts : List String)
    → (parse_or (enough ts) ts ≢ out_of_fuel) × (eval_or (enough ts) attributes ts ≢ out_of_fuel)
unfolding enough
descents_end attributes ts =
    let ends = or_ends (3 * length ts + 3) ts (omega arith) in
    (
      EndsWithin-not_out ends,
      Agrees-not_out attributes (or-Agrees attributes (3 * length ts + 3) ts) ends,
    )
