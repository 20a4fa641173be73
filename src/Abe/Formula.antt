-- ===== src/Abe/Formula.antt =====
-- core/crypto/abe.py: policies as formulas, and their evaluation word by word. The grammar has three
-- levels, an atom, a conjunction of atoms and a disjunction of those.
use trustmem.Prelude.{
  ℕ, zero, suc, ◌+◌, ◌*◌, ◌≤◌, String, Bool, true, false, ◌&&◌, ◌||◌, not, List, [], ◌∷◌, ◌≡◌, refl,
  length, contains, str_eq, and_left, and_right, arith,
}
use trustmem.Abe.Grammar.{
  Parsed, parsed, and_then, peeks, is_or, is_and, eval_or, or_loop, eval_and, and_loop, eval_atom,
  enough,
}

mutual
  pub data Atom : Type 0 where
    word : String → Atom
    group : Disjunction → Atom

  pub data Conjunction : Type 0 where
    atom : Atom → Conjunction
    both : Atom → Conjunction → Conjunction

  pub data Disjunction : Type 0 where
    branch : Conjunction → Disjunction
    either : Conjunction → Disjunction → Disjunction

-- The words of a formula, in front of others.
unfoldable mutual
  pub put_atom : Atom → List String → List String
  put_atom (word w) rest = w ∷ rest
  put_atom (group d) rest = "(" ∷ put_or d (")" ∷ rest)

  pub put_and : Conjunction → List String → List String
  put_and (atom a) rest = put_atom a rest
  put_and (both a c) rest = put_atom a ("and" ∷ put_and c rest)

  pub put_or : Disjunction → List String → List String
  put_or (branch c) rest = put_and c rest
  put_or (either c d) rest = put_and c ("or" ∷ put_or d rest)

-- No word is an opening parenthesis.
unfoldable mutual
  pub valid_atom : Atom → Bool
  valid_atom (word w) = not (str_eq w "(")
  valid_atom (group d) = valid_or d

  pub valid_and : Conjunction → Bool
  valid_and (atom a) = valid_atom a
  valid_and (both a c) = valid_atom a && valid_and c

  pub valid_or : Disjunction → Bool
  valid_or (branch c) = valid_and c
  valid_or (either c d) = valid_and c && valid_or d

mutual
  cost_atom : Atom → ℕ
  cost_atom (word w) = 1
  cost_atom (group d) = suc (cost_or d)

  cost_and : Conjunction → ℕ
  cost_and (atom a) = cost_atom a + 2
  cost_and (both a c) = cost_atom a + (cost_and c + 2)

  cost_or : Disjunction → ℕ
  cost_or (branch c) = cost_and c + 2
  cost_or (either c d) = cost_and c + (cost_or d + 2)

mutual
  unfolding put_or cost_or

  cost_atom_le :
      (a : Atom) (rest : List String)
      → cost_atom a + (3 * length rest + 2) ≤ 3 * length (put_atom a rest)
  cost_atom_le (word w) rest = omega arith
  cost_atom_le (group d) rest = omega (arith, cost_or_le d (")" ∷ rest))

  cost_and_le :
      (c : Conjunction) (rest : List String)
      → cost_and c + 3 * length rest ≤ 3 * length (put_and c rest)
  cost_and_le (atom a) rest = omega (arith, cost_atom_le a rest)
  cost_and_le (both a c) rest =
      omega (arith, cost_atom_le a ("and" ∷ put_and c rest), cost_and_le c rest)

  cost_or_le :
      (d : Disjunction) (rest : List String)
      → cost_or d + 3 * length rest ≤ 3 * length (put_or d rest) + 2
  cost_or_le (branch c) rest = omega (arith, cost_and_le c rest)
  cost_or_le (either c d) rest =
      omega (arith, cost_and_le c ("or" ∷ put_or d rest), cost_or_le d rest)

then_parsed :
    {A B : Type 0} {r : Parsed A} {a : A} {ts : List String} {q : Parsed B}
    (k : A → List String → Parsed B)
    → r ≡ parsed a ts
    → k a ts ≡ q
    → and_then r k ≡ q
then_parsed k e h = rw e h

module _ (attributes : List String) where
  unfoldable mutual
    pub value_atom : Atom → Bool
    value_atom (word w) = contains w attributes
    value_atom (group d) = value_or d

    pub value_and : Conjunction → Bool
    value_and (atom a) = value_atom a
    value_and (both a c) = value_atom a && value_and c

    pub value_or : Disjunction → Bool
    value_or (branch c) = value_and c
    value_or (either c d) = value_and c || value_or d

  and_stops :
      (f : ℕ) (b : Bool) (rest : List String)
      → 1 ≤ f
      → peeks is_and rest ≡ false
      → and_loop f attributes b rest ≡ parsed b rest
  unfolding eval_or
  and_stops zero b rest h e = absurd (omega arith)
  and_stops (suc f) b rest h e = ground (arith, e)

  or_stops :
      (f : ℕ) (b : Bool) (rest : List String)
      → 1 ≤ f
      → peeks is_or rest ≡ false
      → or_loop f attributes b rest ≡ parsed b rest
  unfolding eval_or
  or_stops zero b rest h e = absurd (omega arith)
  or_stops (suc f) b rest h e = ground (arith, e)

  mutual
    unfolding eval_or put_or valid_or value_or cost_or is_and is_or

    atom_value :
        (f : ℕ) (a : Atom) (rest : List String)
        → cost_atom a ≤ f
        → valid_atom a ≡ true
        → eval_atom f attributes (put_atom a rest) ≡ parsed (value_atom a) rest
    atom_value zero (word w) rest h v = absurd (omega arith)
    atom_value zero (group d) rest h v = absurd (omega arith)
    atom_value (suc f) (word w) rest h v = ground (arith, v)
    atom_value (suc f) (group d) rest h v =
        then_parsed _ (or_value f d (")" ∷ rest) (omega arith) v refl refl) refl

    and_value :
        (f : ℕ) (c : Conjunction) (rest : List String)
        → cost_and c ≤ f
        → valid_and c ≡ true
        → peeks is_and rest ≡ false
        → eval_and f attributes (put_and c rest) ≡ parsed (value_and c) rest
    and_value zero (atom a) rest h v e = absurd (omega arith)
    and_value zero (both a c) rest h v e = absurd (omega arith)
    and_value (suc f) (atom a) rest h v e =
        then_parsed _ (atom_value f a rest (omega arith) v)
          (and_stops f (value_atom a) rest (omega arith) e)
    and_value (suc f) (both a c) rest h v e =
        then_parsed _
          (atom_value f a ("and" ∷ put_and c rest) (omega arith)
            (and_left (valid_atom a) (valid_and c) v))
          (and_loop_value f (value_atom a) c rest (omega arith)
            (and_right (valid_atom a) (valid_and c) v) e)

    and_loop_value :
        (f : ℕ) (b : Bool) (c : Conjunction) (rest : List String)
        → cost_and c ≤ f
        → valid_and c ≡ true
        → peeks is_and rest ≡ false
        → and_loop f attributes b ("and" ∷ put_and c rest) ≡ parsed (b && value_and c) rest
    and_loop_value zero b (atom a) rest h v e = absurd (omega arith)
    and_loop_value zero b (both a c) rest h v e = absurd (omega arith)
    and_loop_value (suc f) b (atom a) rest h v e =
        then_parsed _ (atom_value f a rest (omega arith) v)
          (and_stops f (b && value_atom a) rest (omega arith) e)
    and_loop_value (suc f) b (both a c) rest h v e =
        let head =
          atom_value f a ("and" ∷ put_and c rest) (omega arith)
            (and_left (valid_atom a) (valid_and c) v) in
        let loop =
          and_loop_value f (b && value_atom a) c rest (omega arith)
            (and_right (valid_atom a) (valid_and c) v) e in
        then_parsed _ head (rw loop (ground arith))

    or_value :
        (f : ℕ) (d : Disjunction) (rest : List String)
        → cost_or d ≤ f
        → valid_or d ≡ true
        → peeks is_and rest ≡ false
        → peeks is_or rest ≡ false
        → eval_or f attributes (put_or d rest) ≡ parsed (value_or d) rest
    or_value zero (branch c) rest h v e g = absurd (omega arith)
    or_value zero (either c d) rest h v e g = absurd (omega arith)
    or_value (suc f) (branch c) rest h v e g =
        then_parsed _ (and_value f c rest (omega arith) v e)
          (or_stops f (value_and c) rest (omega arith) g)
    or_value (suc f) (either c d) rest h v e g =
        then_parsed _
          (and_value f c ("or" ∷ put_or d rest) (omega arith)
            (and_left (valid_and c) (valid_or d) v) refl)
          (or_loop_value f (value_and c) d rest (omega arith)
            (and_right (valid_and c) (valid_or d) v) e g)

    or_loop_value :
        (f : ℕ) (b : Bool) (d : Disjunction) (rest : List String)
        → cost_or d ≤ f
        → valid_or d ≡ true
        → peeks is_and rest ≡ false
        → peeks is_or rest ≡ false
        → or_loop f attributes b ("or" ∷ put_or d rest) ≡ parsed (b || value_or d) rest
    or_loop_value zero b (branch c) rest h v e g = absurd (omega arith)
    or_loop_value zero b (either c d) rest h v e g = absurd (omega arith)
    or_loop_value (suc f) b (branch c) rest h v e g =
        then_parsed _ (and_value f c rest (omega arith) v e)
          (or_stops f (b || value_and c) rest (omega arith) g)
    or_loop_value (suc f) b (either c d) rest h v e g =
        let head =
          and_value f c ("or" ∷ put_or d rest) (omega arith) (and_left (valid_and c) (valid_or d) v)
            refl in
        let loop =
          or_loop_value f (b || value_and c) d rest (omega arith)
            (and_right (valid_and c) (valid_or d) v) e g in
        then_parsed _ head (rw loop (ground arith))

  -- The evaluation of a formula's words gives the formula's truth value, reads all of them, and
  -- does so within the fuel that the program's functions give it.
  pub eval_or-put_or :
      (d : Disjunction)
      → valid_or d ≡ true
      → eval_or (enough (put_or d [])) attributes (put_or d []) ≡ parsed (value_or d) []
  unfolding enough
  eval_or-put_or d v =
      or_value (3 * length (put_or d []) + 3) d [] (omega (arith, cost_or_le d [])) v refl refl
