-- ===== src/Abe/Tokens.antt =====
-- core/crypto/abe.py: the words of a policy, as the regular expression of `_tokenize` finds them.
-- A run of letters, digits, underscores and hyphens is one word, but for a keyword in front.
use Prim.Native.Char.{Char, code}
use Prim.Native.String.{◌++◌ as append}
use trustmem.Prelude.{
  ℕ, String, Bool, true, false, ◌&&◌, ◌||◌, List, [], ◌∷◌, ◌++◌, leb, ◌==◌, ◌≡◌, refl,
  if◌then◌else◌, and_left, and_right, arith,
}

-- What the expression tells apart: parentheses, `[-\w]`, and what it passes over.
pub data Sort : Type 0 where
  opening closing wordly passed : Sort

unfoldable pub is_space : Char → Bool
is_space c =
    code c == b' ' || ((leb 9 (code c) && leb (code c) 13) || (leb 28 (code c) && leb (code c) 31))

module _ (is_alphanumeric : Char → Bool) where
  -- `\w` is `[a-zA-Z0-9_]`, and beyond ASCII what Unicode says.
  unfoldable pub sort_of : Char → Sort
  sort_of c =
      let n = code c in
      if n == b'('
      then opening
      else if n == b')'
      then closing
      else if n == b'-'
          || (n == b'_'
              || ((leb b'a' n && leb n b'z')
                  || ((leb b'A' n && leb n b'Z')
                      || ((leb b'0' n && leb n b'9') || (leb 128 n && is_alphanumeric c)))))
      then wordly
      else passed

abbrev is_letter : ℕ → ℕ → Char → Bool
is_letter lower upper c = code c == lower || code c == upper

-- `\b` behind a keyword, in a run.
abbrev ends : String → Bool
ends String.[] = true
ends (String.◌∷◌ c s) = code c == b'-'

abbrev rest_of : String → List String
rest_of String.[] = []
rest_of (String.◌∷◌ c s) = String.◌∷◌ c s ∷ []

unfoldable pub try_or : String → List String
try_or (String.◌∷◌ o (String.◌∷◌ r s)) =
    if is_letter b'o' b'O' o && (is_letter b'r' b'R' r && ends s)
    then String.◌∷◌ o (String.◌∷◌ r String.[]) ∷ rest_of s
    else String.◌∷◌ o (String.◌∷◌ r s) ∷ []
try_or w = w ∷ []

-- The words of a run that is not empty.
unfoldable pub split_run : String → List String
unfolding try_or
split_run (String.◌∷◌ a (String.◌∷◌ n (String.◌∷◌ d s))) =
    if is_letter b'a' b'A' a && (is_letter b'n' b'N' n && (is_letter b'd' b'D' d && ends s))
    then String.◌∷◌ a (String.◌∷◌ n (String.◌∷◌ d String.[])) ∷ rest_of s
    else try_or (String.◌∷◌ a (String.◌∷◌ n (String.◌∷◌ d s)))
split_run w = try_or w

unfoldable pub flush : String → List String
unfolding split_run
flush String.[] = []
flush (String.◌∷◌ c s) = split_run (String.◌∷◌ c s)

unfoldable pub push : String → Char → String
push acc c = append acc (String.◌∷◌ c String.[])

module _ (is_alphanumeric : Char → Bool) where
  unfoldable pub scan : String → String → List String
  unfolding flush push
  scan acc String.[] = flush acc
  scan acc (String.◌∷◌ c s) = elim (sort_of is_alphanumeric c) [
    | opening ↦ flush acc ++ ("(" ∷ scan String.[] s)
    | closing ↦ flush acc ++ (")" ∷ scan String.[] s)
    | wordly ↦ scan (push acc c) s
    | passed ↦ flush acc ++ scan String.[] s
  ]

  -- `_tokenize`
  unfoldable pub tokenize : String → List String
  unfolding scan
  tokenize policy = scan String.[] policy

-- `not policy.strip()`, but for spaces beyond ASCII, which `_tokenize` passes over as well.
unfoldable pub is_blank : String → Bool
unfolding is_space
is_blank String.[] = true
is_blank (String.◌∷◌ c s) = is_space c && is_blank s

sort_of-space :
    (is_alphanumeric : Char → Bool) (c : Char)
    → is_space c ≡ true
    → sort_of is_alphanumeric c ≡ passed
unfolding sort_of is_space
sort_of-space is_alphanumeric c h = ground arith

pub tokenize-is_blank :
    (is_alphanumeric : Char → Bool) (s : String)
    → is_blank s ≡ true
    → tokenize is_alphanumeric s ≡ []
unfolding is_blank tokenize
tokenize-is_blank is_alphanumeric String.[] h = refl
tokenize-is_blank is_alphanumeric (String.◌∷◌ c s) h =
    let gone = sort_of-space is_alphanumeric c (and_left (is_space c) (is_blank s) h) in
    rw (tokenize, scan, gone)
      (tokenize-is_blank is_alphanumeric s (and_right (is_space c) (is_blank s) h))

ascii : Char → Bool
ascii c = false

abbrev demo : String
demo = "(clearance_2 or clearance_3) AND task_t-1 or(and-x)"

example :
    tokenize ascii demo
    ≡ "(" ∷ "clearance_2" ∷ "or" ∷ "clearance_3" ∷ ")" ∷ "AND" ∷ "task_t-1" ∷ "or" ∷ "(" ∷ "and"
      ∷ "-x" ∷ ")" ∷ []
unfolding tokenize ascii sort_of
example = refl
