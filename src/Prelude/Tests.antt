-- ===== src/Prelude/Tests.antt =====
-- Boolean tests on the native numbers, the conditional, and case lemmas.
use Prim.Native.Nat.{ℕ, ◌≤◌, ◌<◌, compare, Ordering}
use mathlib.Core.Path.{◌≡◌, refl}
use mathlib.Core.Logic.{◌↔◌, ◌⊎◌, inl, inr}
use mathlib.Core.Bool.{Bool, true, false, ◌&&◌}
use mathlib.Core.Option.{Option, none, some}
use native.Mathlib.Omega.{arith}

abbrev pub ltb : ℕ → ℕ → Bool
ltb a b = elim (compare a b) [ Ordering.lt ↦ true | _ ↦ false ]

abbrev pub leb : ℕ → ℕ → Bool
leb a b = elim (compare a b) [ Ordering.gt ↦ false | _ ↦ true ]

infix 50 ◌==◌
abbrev pub ◌==◌ : ℕ → ℕ → Bool
a == b = elim (compare a b) [ Ordering.eq ↦ true | _ ↦ false ]

infix 1 if◌then◌else◌
abbrev pub if◌then◌else◌ {ℓ} : {A : Type ℓ} → Bool → A → A → A
if true then x else y = x
if false then x else y = y

pub leb→le : (a b : ℕ) → leb a b ≡ true → a ≤ b
leb→le a b h = ground arith

pub le→leb : (a b : ℕ) → a ≤ b → leb a b ≡ true
le→leb a b h = ground arith

pub leb_false→lt : (a b : ℕ) → leb a b ≡ false → b < a
leb_false→lt a b h = ground arith

pub ltb→lt : (a b : ℕ) → ltb a b ≡ true → a < b
ltb→lt a b h = ground arith

pub ltb_false→le : (a b : ℕ) → ltb a b ≡ false → b ≤ a
ltb_false→le a b h = ground arith

pub lt→ltb : (a b : ℕ) → a < b → ltb a b ≡ true
lt→ltb a b h = ground arith

pub ruleset tests = (arith, leb→le, le→leb, leb_false→lt, ltb→lt, lt→ltb)

pub Bool-cases : (b : Bool) → (b ≡ true) ⊎ (b ≡ false)
Bool-cases true = inl refl
Bool-cases false = inr refl

pub Option-cases {ℓ} : {A : Type ℓ} (o : Option A) → (o ≡ none) ⊎ ((a : A) × (o ≡ some a))
Option-cases none = inl refl
Option-cases (some a) = inr (a, refl)

module _ (a b : Bool) where
  pub and_left : (a && b) ≡ true → a ≡ true
  and_left h = ground arith

  pub and_right : (a && b) ≡ true → b ≡ true
  and_right h = ground arith

  pub and_intro : a ≡ true → b ≡ true → (a && b) ≡ true
  and_intro h k = ground arith

-- A test that decides a statement, turned over, and two of them joined.
module _ {ℓ} {P : Type ℓ} where
  pub false_iff : {b : Bool} → (b ≡ true) ↔ P → (b ≡ false) ↔ (¬ P)
  false_iff {b = true} f = (λ e. absurd (cc e), λ n. absurd (n (f.0 refl)))
  false_iff {b = false} f = (λ _ p. absurd (cc (f.1 p)), λ _. refl)

  pub not_both : (b c : Bool) → ((b ≡ true) × (c ≡ true)) ↔ P → ¬ P → (b ≡ false) ⊎ (c ≡ false)
  not_both true true f n = absurd (n (f.0 (refl, refl)))
  not_both true false f n = inr refl
  not_both false c f n = inl refl
