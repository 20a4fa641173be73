-- ===== src/Labels/Lattice.antt =====
-- core/labels.py: the two orders. `Clearance` and `Trust` are `IntEnum`s, so the code compares them
-- as integers, and builds them back from an integer. Every integer that the code builds one from is
-- at most 3; from a larger one the constructor would raise.
use trustmem.Prelude.{
  ℕ, zero, suc, ◌≤◌, ◌<◌, ◌≡◌, refl, ap, All-mono, Bool, List, [], ◌∷◌, All, map, min, max, arith,
  leb,
}
use trustmem.Labels.{
  Clearance, l0_public, l1_internal, l2_sensitive, l3_secret, Trust, t0_untrusted, t1_low,
  t2_medium, t3_high, MemoryLabel,
}

-- `int(t)`
unfoldable pub trust_level : Trust → ℕ
trust_level t0_untrusted = 0
trust_level t1_low = 1
trust_level t2_medium = 2
trust_level t3_high = 3

-- `Trust(n)`
unfoldable pub trust_of : ℕ → Trust
trust_of zero = t0_untrusted
trust_of (suc zero) = t1_low
trust_of (suc (suc zero)) = t2_medium
trust_of (suc (suc (suc n))) = t3_high

-- `int(c)`
unfoldable pub clearance_level : Clearance → ℕ
clearance_level l0_public = 0
clearance_level l1_internal = 1
clearance_level l2_sensitive = 2
clearance_level l3_secret = 3

-- `Clearance(n)`
unfoldable pub clearance_of : ℕ → Clearance
clearance_of zero = l0_public
clearance_of (suc zero) = l1_internal
clearance_of (suc (suc zero)) = l2_sensitive
clearance_of (suc (suc (suc n))) = l3_secret

-- `a <= b`
abbrev pub trust_leb : Trust → Trust → Bool
trust_leb a b = leb (trust_level a) (trust_level b)

abbrev pub clearance_leb : Clearance → Clearance → Bool
clearance_leb a b = leb (clearance_level a) (clearance_level b)

-- `Trust(min(int(a), int(b)))`
unfoldable pub min_trust : Trust → Trust → Trust
unfolding trust_level trust_of
min_trust a b = trust_of (min (trust_level a) (trust_level b))

-- `Trust(max(int(a), int(b)))`
unfoldable pub max_trust : Trust → Trust → Trust
unfolding trust_level trust_of
max_trust a b = trust_of (max (trust_level a) (trust_level b))

-- `Clearance(max(int(a), int(b)))`
unfoldable pub max_clearance : Clearance → Clearance → Clearance
unfolding clearance_level clearance_of
max_clearance a b = clearance_of (max (clearance_level a) (clearance_level b))

-- `Clearance(min(int(a), int(b)))`
unfoldable pub min_clearance : Clearance → Clearance → Clearance
unfolding clearance_level clearance_of
min_clearance a b = clearance_of (min (clearance_level a) (clearance_level b))

-- The meet of the empty collection is the unit, T3.
unfoldable pub meet_trust : List Trust → Trust
unfolding min_trust
meet_trust [] = t3_high
meet_trust (t ∷ ts) = min_trust t (meet_trust ts)

-- The generator over `provenance_trust` that callers hand to `meet_trust`.
abbrev pub trusts : List MemoryLabel → List Trust
trusts = map (λ m. m.provenance_trust)

pub trust_level-le : (t : Trust) → trust_level t ≤ 3
unfolding trust_level
trust_level-le t0_untrusted = omega arith
trust_level-le _ = omega arith

pub clearance_level-le : (c : Clearance) → clearance_level c ≤ 3
unfolding clearance_level
clearance_level-le l0_public = omega arith
clearance_level-le _ = omega arith

pub trust_level-trust_of : (n : ℕ) → n ≤ 3 → trust_level (trust_of n) ≡ n
unfolding trust_level trust_of
trust_level-trust_of zero h = refl
trust_level-trust_of (suc zero) h = refl
trust_level-trust_of (suc (suc zero)) h = refl
trust_level-trust_of (suc (suc (suc n))) h = omega arith

pub clearance_level-clearance_of : (n : ℕ) → n ≤ 3 → clearance_level (clearance_of n) ≡ n
unfolding clearance_level clearance_of
clearance_level-clearance_of zero h = refl
clearance_level-clearance_of (suc zero) h = refl
clearance_level-clearance_of (suc (suc zero)) h = refl
clearance_level-clearance_of (suc (suc (suc n))) h = omega arith

pub trust_of-trust_level : (t : Trust) → trust_of (trust_level t) ≡ t
unfolding trust_level trust_of
trust_of-trust_level t0_untrusted = refl
trust_of-trust_level t1_low = refl
trust_of-trust_level t2_medium = refl
trust_of-trust_level t3_high = refl

pub clearance_of-clearance_level : (c : Clearance) → clearance_of (clearance_level c) ≡ c
unfolding clearance_level clearance_of
clearance_of-clearance_level l0_public = refl
clearance_of-clearance_level l1_internal = refl
clearance_of-clearance_level l2_sensitive = refl
clearance_of-clearance_level l3_secret = refl

pub eq_of_trust_level : (a b : Trust) → trust_level a ≡ trust_level b → a ≡ b
eq_of_trust_level a b h = cc (trust_of-trust_level a, trust_of-trust_level b, ap trust_of h)

pub eq_of_clearance_level : (a b : Clearance) → clearance_level a ≡ clearance_level b → a ≡ b
eq_of_clearance_level a b h =
    cc (clearance_of-clearance_level a, clearance_of-clearance_level b, ap clearance_of h)

pub trust_level-min_trust :
    (a b : Trust) → trust_level (min_trust a b) ≡ min (trust_level a) (trust_level b)
unfolding min_trust
trust_level-min_trust a b =
    trust_level-trust_of _ (omega (arith, trust_level-le a, trust_level-le b))

pub trust_level-max_trust :
    (a b : Trust) → trust_level (max_trust a b) ≡ max (trust_level a) (trust_level b)
unfolding max_trust
trust_level-max_trust a b =
    trust_level-trust_of _ (omega (arith, trust_level-le a, trust_level-le b))

pub clearance_level-max_clearance :
    (a b : Clearance)
    → clearance_level (max_clearance a b) ≡ max (clearance_level a) (clearance_level b)
unfolding max_clearance
clearance_level-max_clearance a b =
    clearance_level-clearance_of _ (omega (arith, clearance_level-le a, clearance_level-le b))

pub clearance_level-min_clearance :
    (a b : Clearance)
    → clearance_level (min_clearance a b) ≡ min (clearance_level a) (clearance_level b)
unfolding min_clearance
clearance_level-min_clearance a b =
    clearance_level-clearance_of _ (omega (arith, clearance_level-le a, clearance_level-le b))

pub ruleset lattice = (
  arith, trust_level-le, clearance_level-le, trust_level-min_trust, trust_level-max_trust,
  clearance_level-max_clearance, clearance_level-min_clearance,
)

-- The meet is a lower bound, and the greatest one.
pub meet_trust-le : (ts : List Trust) → All (λ t. trust_level (meet_trust ts) ≤ trust_level t) ts
unfolding meet_trust
meet_trust-le [] = tt
meet_trust-le (t ∷ ts) = (
  omega (arith, trust_level-min_trust t (meet_trust ts)),
  All-mono _ _ (λ u h. omega (arith, trust_level-min_trust t (meet_trust ts))) ts
      (meet_trust-le ts),
)

pub le-meet_trust :
    (n : ℕ) (ts : List Trust)
    → n ≤ 3
    → All (λ t. n ≤ trust_level t) ts
    → n ≤ trust_level (meet_trust ts)
unfolding meet_trust trust_level
le-meet_trust n [] h a = h
le-meet_trust n (t ∷ ts) h a =
    let ih = le-meet_trust n ts h a.1 in rw trust_level-min_trust (omega (arith, ih))
