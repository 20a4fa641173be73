-- ===== src/Abe/Agreement.antt =====
-- core/crypto/abe.py: the evaluation of a policy and its expansion into minimal sets agree.
use text.Mathlib.TextEquality.{eq_iff}
use trustmem.Prelude.{
  ℕ, zero, suc, String, Bool, true, false, ◌&&◌, ◌||◌, List, [], ◌∷◌, ◌++◌, ◌≡◌, refl, ap, all, any,
  any-append, contains, add, str_eq, if◌then◌else◌, arith,
}
use trustmem.Abe.Grammar.{
  Parsed, parsed, failed, out_of_fuel, and_then, peeks, tail, is_or, is_and, eval_or, or_loop,
  eval_and, and_loop, eval_atom, union, joined, product, parse_or, parse_or_loop, parse_and,
  parse_and_loop, parse_factor,
}

module _ (attributes : List String) where
  abbrev pub held : String → Bool
  held a = contains a attributes

  -- Some set of the family holds only attributes of the list.
  abbrev pub unlocks : List (List String) → Bool
  unlocks sets = any (all held) sets

  contains-held :
      (a : String) (s : List String) → contains a s ≡ true → all held s ≡ true → held a ≡ true
  unfolding contains
  contains-held a [] h k = absurd (cc h)
  contains-held a (x ∷ s) h k =
      ground (arith, contains-held a s, eq_iff x a, λ (e : x ≡ a). ap held e)

  all-add : (a : String) (s : List String) → all held (add a s) ≡ (held a && all held s)
  unfolding add
  all-add a s = ground (arith, contains-held a s)

  pub all-union : (a b : List String) → all held (union a b) ≡ (all held a && all held b)
  unfolding union
  all-union [] b = refl
  all-union (x ∷ a) b = ground (arith, all-add x (union a b), all-union a b)

  any-joined :
      (a : List String) (sets : List (List String))
      → unlocks (joined a sets) ≡ (all held a && unlocks sets)
  unfolding joined
  any-joined a [] = ground arith
  any-joined a (b ∷ sets) = ground (arith, all-union a b, any-joined a sets)

  any-product : (s t : List (List String)) → unlocks (product s t) ≡ (unlocks s && unlocks t)
  unfolding product
  any-product [] t = refl
  any-product (a ∷ s) t =
      ground
        (arith, any-append (all held) (joined a t) (product s t), any-joined a t, any-product s t)

  -- The two descents end alike, and the value of the one is that of the family of the other.
  pub data Agrees : Parsed Bool → Parsed (List (List String)) → Type 0 where
    same :
        {b : Bool} {s : List (List String)} {ts : List String}
        → b ≡ unlocks s
        → Agrees (parsed b ts) (parsed s ts)
    both_failed : Agrees failed failed
    both_out : Agrees out_of_fuel out_of_fuel

  Agrees-then :
      {r : Parsed Bool} {q : Parsed (List (List String))} {k : Bool → List String → Parsed Bool}
      {l : List (List String) → List String → Parsed (List (List String))}
      → Agrees r q
      → ((b : Bool) (s : List (List String)) (ts : List String)
          → b ≡ unlocks s
          → Agrees (k b ts) (l s ts))
      → Agrees (and_then r k) (and_then q l)
  Agrees-then (same {b} {s} {ts} e) step = step b s ts e
  Agrees-then both_failed step = both_failed
  Agrees-then both_out step = both_out

  Agrees-if :
      (c : Bool) {r r' : Parsed Bool} {q q' : Parsed (List (List String))}
      → Agrees r q
      → Agrees r' q'
      → Agrees (if c then r else r') (if c then q else q')
  Agrees-if true h k = h
  Agrees-if false h k = k

  mutual
    unfolding eval_or parse_or

    pub or-Agrees : (f : ℕ) (ts : List String) → Agrees (eval_or f attributes ts) (parse_or f ts)
    or-Agrees zero ts = both_out
    or-Agrees (suc f) ts = Agrees-then (and-Agrees f ts) λ b s rest e. or_loop-Agrees f b s rest e

    or_loop-Agrees :
        (f : ℕ) (b : Bool) (s : List (List String)) (ts : List String)
        → b ≡ unlocks s
        → Agrees (or_loop f attributes b ts) (parse_or_loop f s ts)
    or_loop-Agrees zero b s ts e = both_out
    or_loop-Agrees (suc f) b s ts e =
        Agrees-if (peeks is_or ts)
          (Agrees-then (and-Agrees f (tail ts)) λ c t rest d.
            or_loop-Agrees f (b || c) (s ++ t) rest
              (ground (arith, e, d, any-append (all held) s t)))
          (same e)

    and-Agrees : (f : ℕ) (ts : List String) → Agrees (eval_and f attributes ts) (parse_and f ts)
    and-Agrees zero ts = both_out
    and-Agrees (suc f) ts =
        Agrees-then (atom-Agrees f ts) λ b s rest e. and_loop-Agrees f b s rest e

    and_loop-Agrees :
        (f : ℕ) (b : Bool) (s : List (List String)) (ts : List String)
        → b ≡ unlocks s
        → Agrees (and_loop f attributes b ts) (parse_and_loop f s ts)
    and_loop-Agrees zero b s ts e = both_out
    and_loop-Agrees (suc f) b s ts e =
        Agrees-if (peeks is_and ts)
          (Agrees-then (atom-Agrees f (tail ts)) λ c t rest d.
            and_loop-Agrees f (b && c) (product s t) rest (ground (arith, e, d, any-product s t)))
          (same e)

    atom-Agrees :
        (f : ℕ) (ts : List String) → Agrees (eval_atom f attributes ts) (parse_factor f ts)
    atom-Agrees zero ts = both_out
    atom-Agrees (suc f) [] = both_failed
    atom-Agrees (suc f) (t ∷ ts) =
        Agrees-if (str_eq t "(") (Agrees-then (or-Agrees f ts) λ b s rest e. same e)
          (same (ground arith))
