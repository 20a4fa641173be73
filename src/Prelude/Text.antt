-- ===== src/Prelude/Text.antt =====
-- Sets and dictionaries over texts: a set is a list read by membership, a dictionary is an
-- association list in insertion order.
use Prim.Native.String.{String}
use mathlib.Core.Path.{◌≡◌, refl}
use mathlib.Core.Bool.{Bool, true, false, ◌||◌}
use mathlib.Core.List.{List, [], ◌∷◌, ◌++◌}
use mathlib.Core.Option.{Option, none, some}
use native.Mathlib.Omega.{arith}
use text.Mathlib.Text.{◌==◌ as text_eq}
use text.Mathlib.TextEquality.{eq_iff}
use trustmem.Prelude.Lists.{any}
use trustmem.Prelude.Tests.{if◌then◌else◌}

abbrev pub str_eq : String → String → Bool
str_eq = text_eq

pub str_eq_iff : (s t : String) → ((str_eq s t ≡ true) → s ≡ t) × (s ≡ t → str_eq s t ≡ true)
str_eq_iff s t = eq_iff s t

-- `k in keys`
unfoldable pub contains : String → List String → Bool
contains k [] = false
contains k (x ∷ xs) = str_eq x k || contains k xs

-- `bool(xs & ys)` for two sets
unfoldable pub intersects : List String → List String → Bool
intersects [] ys = false
intersects (x ∷ xs) ys = contains x ys || intersects xs ys

-- `keys.add(k)`
unfoldable pub add : String → List String → List String
add k xs = if contains k xs then xs else k ∷ xs

pub contains-add :
    (k j : String) (xs : List String) → contains j (add k xs) ≡ (str_eq k j || contains j xs)
unfolding add contains
contains-add k j [] = refl
contains-add k j (x ∷ xs) = ground (arith, eq_iff x k, eq_iff x j, eq_iff k j, contains_at)
  where
    contains_at : k ≡ j → contains k xs ≡ contains j xs
    contains_at e = λ i. contains (e i) xs

pub contains-append :
    (k : String) (xs ys : List String) → contains k (xs ++ ys) ≡ (contains k xs || contains k ys)
unfolding contains
contains-append k [] ys = refl
contains-append k (x ∷ xs) ys = ground (arith, contains-append k xs ys)

contains-any : (x : String) (ys : List String) → any (str_eq x) ys ≡ contains x ys
unfolding contains
contains-any x [] = refl
contains-any x (y ∷ ys) = ground (arith, contains-any x ys, eq_iff x y, eq_iff y x)

any-or :
    (f g : String → Bool) (ys : List String) → any (λ y. f y || g y) ys ≡ (any f ys || any g ys)
any-or f g [] = refl
any-or f g (y ∷ ys) = ground (arith, any-or f g ys)

any-false : (ys : List String) → any (λ y. false) ys ≡ false
any-false [] = refl
any-false (y ∷ ys) = any-false ys

-- Two sets have an element in common, whichever of them is gone through.
pub intersects-any : (xs ys : List String) → any (λ y. contains y xs) ys ≡ intersects xs ys
unfolding intersects contains
intersects-any [] ys = any-false ys
intersects-any (x ∷ xs) ys =
    ground
      (arith, any-or (str_eq x) (λ y. contains y xs) ys, contains-any x ys, intersects-any xs ys)

module _ {ℓ} {V : Type ℓ} where
  unfoldable pub lookup : String → List (String × V) → Option V
  lookup k [] = none
  lookup k ((j, v) ∷ m) = if str_eq j k then some v else lookup k m

  -- `m[k] = v`
  unfoldable pub insert : String → V → List (String × V) → List (String × V)
  insert k v [] = (k, v) ∷ []
  insert k v ((j, w) ∷ m) = if str_eq j k then (j, v) ∷ m else (j, w) ∷ insert k v m

  -- A lookup after `d[key] = val`.
  pub lookup-insert :
      (key other : String) (val : V) (d : List (String × V))
      → lookup other (insert key val d) ≡ (if str_eq key other then some val else lookup other d)
  unfolding lookup insert
  lookup-insert key other val [] = refl
  lookup-insert key other val ((at, old) ∷ d) =
      let rest = lookup-insert key other val d in
      ground (arith, rest, eq_iff at key, eq_iff at other, eq_iff key other)
