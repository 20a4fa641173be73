-- ===== src/Abe/Access.antt =====
-- core/crypto/abe.py: whether attributes satisfy a policy, and the minimal sets of a policy.
use Prim.Native.Char.{Char}
use text.Mathlib.TextEquality.{eq_iff}
use trustmem.Prelude.{
  String, Bool, true, false, List, [], ◌∷◌, ◌≡◌, refl, str_eq, nonempty, Bool-cases, inl, inr,
  if◌then◌else◌, arith,
}
use trustmem.Abe.Tokens.{tokenize, is_blank, tokenize-is_blank}
use trustmem.Abe.Grammar.{Parsed, parsed, failed, out_of_fuel, eval_or, parse_or, enough}
use trustmem.Abe.Agreement.{Agrees, same, both_failed, both_out, unlocks, or-Agrees}

-- An IndexError is caught.
abbrev pub result_of : Parsed Bool → Bool
result_of (parsed b ts) = b
result_of failed = false
result_of out_of_fuel = false

abbrev pub family_of : Parsed (List (List String)) → List (List String)
family_of (parsed s ts) = s
family_of failed = []
family_of out_of_fuel = []

module _ (is_alphanumeric : Char → Bool) where
  unfoldable pub policy_satisfied : String → List String → Bool
  policy_satisfied policy attributes =
      let tokens = tokenize is_alphanumeric policy in
      if str_eq policy "" then false else result_of (eval_or (enough tokens) attributes tokens)

  unfoldable pub minimal_sets : String → List (List String)
  minimal_sets policy =
      let tokens = tokenize is_alphanumeric policy in
      if is_blank policy
      then []
      else if nonempty tokens
      then family_of (parse_or (enough tokens) tokens)
      else []

module _ (is_alphanumeric : Char → Bool) (attributes : List String) where
  Agrees-result :
      {r : Parsed Bool} {q : Parsed (List (List String))}
      → Agrees attributes r q
      → result_of r ≡ unlocks attributes (family_of q)
  Agrees-result (same e) = e
  Agrees-result both_failed = refl
  Agrees-result both_out = refl

  tokens_agree :
      (ts : List String)
      → result_of (eval_or (enough ts) attributes ts)
        ≡ unlocks attributes (if nonempty ts then family_of (parse_or (enough ts) ts) else [])
  unfolding enough eval_or parse_or
  tokens_agree [] = refl
  tokens_agree (t ∷ ts) = Agrees-result (or-Agrees attributes (enough (t ∷ ts)) (t ∷ ts))

  blank_fails :
      (policy : String)
      → is_blank policy ≡ true
      → result_of (
          eval_or
            (enough (tokenize is_alphanumeric policy))
            attributes
            (tokenize is_alphanumeric policy))
        ≡ false
  unfolding enough eval_or
  blank_fails policy h = rw (tokenize-is_blank is_alphanumeric policy h) refl

  empty_is_blank : (policy : String) → policy ≡ "" → is_blank policy ≡ true
  unfolding is_blank
  empty_is_blank policy e = rw e refl

  -- Attributes satisfy a policy exactly when they hold every attribute of one of the policy's
  -- minimal sets, whatever the text of the policy is.
  pub policy_satisfied-unlocks :
      (policy : String)
      → policy_satisfied is_alphanumeric policy attributes
        ≡ unlocks attributes (minimal_sets is_alphanumeric policy)
  unfolding policy_satisfied minimal_sets
  policy_satisfied-unlocks policy =
      let agree = tokens_agree (tokenize is_alphanumeric policy) in
      elim (Bool-cases (is_blank policy)) [
        | inl b ↦ rw (b, blank_fails policy b) (ground arith)
        | inr b ↦ ground (arith, agree, eq_iff policy "", empty_is_blank policy)
      ]
