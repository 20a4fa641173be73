-- ===== src/Prelude/Sorting.antt =====
-- Python's `sorted` on texts, which compares the characters' numbers.
use Prim.Native.Nat.{Ordering}
use Prim.Native.String.{String, compare}
use mathlib.Core.Path.{◌≡◌, refl}
use mathlib.Core.Bool.{Bool, true, false, ◌&&◌, ◌||◌}
use mathlib.Core.List.{List, [], ◌∷◌}
use native.Mathlib.Omega.{arith}
use trustmem.Prelude.Tests.{if◌then◌else◌}
use trustmem.Prelude.Lists.{all, any, nonempty}
use trustmem.Prelude.Text.{contains, str_eq}

abbrev before : String → String → Bool
before s t = elim (compare s t) [ Ordering.gt ↦ false | _ ↦ true ]

unfoldable pub insert_sorted : String → List String → List String
insert_sorted s [] = s ∷ []
insert_sorted s (t ∷ ts) = if before s t then s ∷ t ∷ ts else t ∷ insert_sorted s ts

unfoldable pub sorted : List String → List String
unfolding insert_sorted
sorted [] = []
sorted (s ∷ ss) = insert_sorted s (sorted ss)

module _ (p : String → Bool) where
  any-insert_sorted :
      (s : String) (ts : List String) → any p (insert_sorted s ts) ≡ (p s || any p ts)
  unfolding insert_sorted
  any-insert_sorted s [] = refl
  any-insert_sorted s (t ∷ ts) = ground (arith, any-insert_sorted s ts)

  pub any-sorted : (ts : List String) → any p (sorted ts) ≡ any p ts
  unfolding sorted
  any-sorted [] = refl
  any-sorted (t ∷ ts) = ground (arith, any-insert_sorted t (sorted ts), any-sorted ts)

  all-insert_sorted :
      (s : String) (ts : List String) → all p (insert_sorted s ts) ≡ (p s && all p ts)
  unfolding insert_sorted
  all-insert_sorted s [] = refl
  all-insert_sorted s (t ∷ ts) = ground (arith, all-insert_sorted s ts)

  pub all-sorted : (ts : List String) → all p (sorted ts) ≡ all p ts
  unfolding sorted
  all-sorted [] = refl
  all-sorted (t ∷ ts) = ground (arith, all-insert_sorted t (sorted ts), all-sorted ts)

nonempty-insert_sorted : (s : String) (ts : List String) → nonempty (insert_sorted s ts) ≡ true
unfolding insert_sorted
nonempty-insert_sorted s [] = refl
nonempty-insert_sorted s (t ∷ ts) = ground arith

pub nonempty-sorted : (ts : List String) → nonempty (sorted ts) ≡ nonempty ts
unfolding sorted
nonempty-sorted [] = refl
nonempty-sorted (t ∷ ts) = nonempty-insert_sorted t (sorted ts)

contains-insert_sorted :
    (x s : String) (ts : List String)
    → contains x (insert_sorted s ts) ≡ (str_eq s x || contains x ts)
unfolding insert_sorted contains
contains-insert_sorted x s [] = refl
contains-insert_sorted x s (t ∷ ts) = ground (arith, contains-insert_sorted x s ts)

pub contains-sorted : (x : String) (ts : List String) → contains x (sorted ts) ≡ contains x ts
unfolding sorted contains
contains-sorted x [] = refl
contains-sorted x (t ∷ ts) =
    ground (arith, contains-insert_sorted x t (sorted ts), contains-sorted x ts)
