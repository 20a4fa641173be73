-- ===== src/Abe/Grammar.antt =====
-- core/crypto/abe.py: the two recursive descents over the words of a policy, the evaluation and
-- the expansion into minimal sets of attributes. The position is the list of words that are left.
use trustmem.Prelude.{
  ℕ, zero, suc, ◌+◌, ◌*◌, String, Bool, false, ◌&&◌, ◌||◌, List, [], ◌∷◌, ◌++◌, length, contains,
  add, str_eq, if◌then◌else◌,
}

-- A result with the words that are left, or an IndexError. A descent that is given too little fuel
-- has no counterpart in the program.
pub data Parsed (A : Type 0) : Type 0 where
  parsed : A → List String → Parsed A
  failed out_of_fuel : Parsed A

abbrev pub and_then : {A B : Type 0} → Parsed A → (A → List String → Parsed B) → Parsed B
and_then (parsed a ts) k = k a ts
and_then failed k = failed
and_then out_of_fuel k = out_of_fuel

-- `t.lower() == 'or'`
unfoldable pub is_or : String → Bool
is_or t = str_eq t "or" || (str_eq t "OR" || (str_eq t "Or" || str_eq t "oR"))

-- `t.lower() == 'and'`
unfoldable pub is_and : String → Bool
is_and t =
    str_eq t "and"
    || (str_eq t "AND"
        || (str_eq t "And"
            || (str_eq t "aNd"
                || (str_eq t "anD" || (str_eq t "ANd" || (str_eq t "AnD" || str_eq t "aND"))))))

-- The next word passes the test.
abbrev pub peeks : (String → Bool) → List String → Bool
peeks p [] = false
peeks p (t ∷ ts) = p t

abbrev pub tail : List String → List String
tail [] = []
tail (t ∷ ts) = ts

abbrev pub is_closing : String → Bool
is_closing t = str_eq t ")"

-- The closing parenthesis may be missing.
abbrev pub close : List String → List String
close ts = if peeks is_closing ts then tail ts else ts

unfoldable mutual
  pub eval_or : ℕ → List String → List String → Parsed Bool
  eval_or zero attributes ts = out_of_fuel
  eval_or (suc f) attributes ts = and_then (eval_and f attributes ts) (or_loop f attributes)

  pub or_loop : ℕ → List String → Bool → List String → Parsed Bool
  or_loop zero attributes left ts = out_of_fuel
  or_loop (suc f) attributes left ts =
      let more =
        and_then (eval_and f attributes (tail ts))
          λ right rest. or_loop f attributes (left || right) rest in
      if peeks is_or ts then more else parsed left ts

  pub eval_and : ℕ → List String → List String → Parsed Bool
  eval_and zero attributes ts = out_of_fuel
  eval_and (suc f) attributes ts = and_then (eval_atom f attributes ts) (and_loop f attributes)

  pub and_loop : ℕ → List String → Bool → List String → Parsed Bool
  and_loop zero attributes left ts = out_of_fuel
  and_loop (suc f) attributes left ts =
      let more =
        and_then (eval_atom f attributes (tail ts))
          λ right rest. and_loop f attributes (left && right) rest in
      if peeks is_and ts then more else parsed left ts

  pub eval_atom : ℕ → List String → List String → Parsed Bool
  eval_atom zero attributes ts = out_of_fuel
  eval_atom (suc f) attributes [] = failed
  eval_atom (suc f) attributes (t ∷ ts) =
      let group = and_then (eval_or f attributes ts) λ result rest. parsed result (close rest) in
      if str_eq t "(" then group else parsed (contains t attributes) ts

-- `a | b`
unfoldable pub union : List String → List String → List String
union [] b = b
union (x ∷ a) b = add x (union a b)

-- `[a | b for b in right]`, for one `a`
unfoldable pub joined : List String → List (List String) → List (List String)
unfolding union
joined a [] = []
joined a (b ∷ right) = union a b ∷ joined a right

-- `[a | b for a in result for b in right]`
unfoldable pub product : List (List String) → List (List String) → List (List String)
unfolding joined
product [] right = []
product (a ∷ result) right = joined a right ++ product result right

-- `_PolicyParser`
unfoldable mutual
  unfolding product is_or is_and

  pub parse_or : ℕ → List String → Parsed (List (List String))
  parse_or zero ts = out_of_fuel
  parse_or (suc f) ts = and_then (parse_and f ts) (parse_or_loop f)

  pub parse_or_loop : ℕ → List (List String) → List String → Parsed (List (List String))
  parse_or_loop zero result ts = out_of_fuel
  parse_or_loop (suc f) result ts =
      let more =
        and_then (parse_and f (tail ts)) λ right rest. parse_or_loop f (result ++ right) rest in
      if peeks is_or ts then more else parsed result ts

  pub parse_and : ℕ → List String → Parsed (List (List String))
  parse_and zero ts = out_of_fuel
  parse_and (suc f) ts = and_then (parse_factor f ts) (parse_and_loop f)

  pub parse_and_loop : ℕ → List (List String) → List String → Parsed (List (List String))
  parse_and_loop zero result ts = out_of_fuel
  parse_and_loop (suc f) result ts =
      let more =
        and_then (parse_factor f (tail ts))
          λ right rest. parse_and_loop f (product result right) rest in
      if peeks is_and ts then more else parsed result ts

  pub parse_factor : ℕ → List String → Parsed (List (List String))
  parse_factor zero ts = out_of_fuel
  parse_factor (suc f) [] = failed
  parse_factor (suc f) (t ∷ ts) =
      let group = and_then (parse_or f ts) λ result rest. parsed result (close rest) in
      if str_eq t "(" then group else parsed ((t ∷ []) ∷ []) ts

-- Three calls for each word, and three more.
unfoldable pub enough : List String → ℕ
enough ts = 3 * length ts + 3
