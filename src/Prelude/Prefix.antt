-- ===== src/Prelude/Prefix.antt =====
-- Texts that begin with a known text.
use Prim.Native.Char.{code}
use Prim.Native.String.{String, ◌++◌ as append}
use text.Mathlib.TextEquality.{eq_iff}
use text.Mathlib.TextLemmas.{
  cons-append, nil-append, append_cancel_left, head-eq_of_cons-eq, tail-eq_of_cons-eq,
}
use mathlib.Core.Path.{◌≡◌, ap}
use mathlib.Core.Bool.{Bool, true, false, not, ◌||◌}
use native.Mathlib.Omega.{arith}
use trustmem.Prelude.Tests.{◌==◌}
use trustmem.Prelude.Text.{str_eq}

-- The library's concatenation by clauses, which computes behind a text that is known.
unfoldable pub prepend : String → String → String
prepend String.[] t = t
prepend (String.◌∷◌ c s) t = String.◌∷◌ c (prepend s t)

pub append-prepend : (s t : String) → append s t ≡ prepend s t
unfolding prepend
append-prepend String.[] t = nil-append t
append-prepend (String.◌∷◌ c s) t = rw (cons-append c s t) (ap (String.◌∷◌ c) (append-prepend s t))

-- Two texts differ at some place that both have.
abbrev pub differ_early : String → String → Bool
differ_early String.[] q = false
differ_early (String.◌∷◌ c p) String.[] = false
differ_early (String.◌∷◌ c p) (String.◌∷◌ d q) = not (code c == code d) || differ_early p q

pub differ_early-str_eq :
    (p q a b : String) → differ_early p q ≡ true → str_eq (append p a) (append q b) ≡ false
differ_early-str_eq String.[] q a b h = absurd (cc h)
differ_early-str_eq (String.◌∷◌ c p) String.[] a b h = absurd (cc h)
differ_early-str_eq (String.◌∷◌ c p) (String.◌∷◌ d q) a b h =
    rw (cons-append c p a, cons-append d q b)
      (ground (
        arith,
        differ_early-str_eq p q a b,
        eq_iff (String.◌∷◌ c (append p a)) (String.◌∷◌ d (append q b)),
        eq_iff (append p a) (append q b),
        λ (e : String.◌∷◌ c (append p a) ≡ String.◌∷◌ d (append q b)).
            ap code (head-eq_of_cons-eq e),
        λ (e : String.◌∷◌ c (append p a) ≡ String.◌∷◌ d (append q b)). tail-eq_of_cons-eq e,
      ))

pub append-str_eq : (p a b : String) → str_eq (append p a) (append p b) ≡ str_eq a b
append-str_eq p a b = ground (
  arith,
  eq_iff (append p a) (append p b),
  eq_iff a b,
  append_cancel_left p a b,
  λ (e : a ≡ b). ap (append p) e,
)
