-- ===== src/Policy/Digits.antt =====
-- core/policy.py: `str` of a number.
use mathlib.Core.Option.{get_or}
use Prim.Native.String.{◌++◌ as append}
use trustmem.Prelude.{ℕ, zero, suc, ◌/◌, ◌%◌, String, List, [], ◌∷◌, get_elem?, ltb, if◌then◌else◌}

abbrev pub digits : List String
digits = "0" ∷ "1" ∷ "2" ∷ "3" ∷ "4" ∷ "5" ∷ "6" ∷ "7" ∷ "8" ∷ "9" ∷ []

abbrev pub digit : ℕ → String
digit n = get_or (get_elem? digits n) ""

unfoldable pub decimal_from : ℕ → ℕ → String
decimal_from zero n = digit n
decimal_from (suc f) n =
    let front = decimal_from f (n / 10) in
    if ltb n 10 then digit n else append front (digit (n % 10))

-- `str(n)`: a number has no more digits than its value.
unfoldable pub decimal : ℕ → String
unfolding decimal_from
decimal n = decimal_from n n
