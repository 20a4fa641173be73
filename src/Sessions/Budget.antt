-- ===== src/Sessions/Budget.antt =====
-- The control-flow budget of a session id, and what a constrained expansion changes.
use trustmem.Prelude.{
  ℕ, ◌≤◌, ◌≡◌, ◌⊎◌, refl, String, false, Option, none, some, [], ◌∷◌, arith, Bool-cases, str_eq,
  ◌∙◌, inl, inr,
}
use trustmem.Labels.{Trust, Clearance, l0_public}
use trustmem.Labels.Lattice.{
  trust_level, clearance_level, trust_level-min_trust, clearance_level-max_clearance,
  eq_of_clearance_level, max_clearance,
}
use trustmem.Session.{Session, bounded, absorb, consume_bits}
use trustmem.Sessions.{SessionStore, absorb_all, charge, consume_ctl}

-- The session's control-flow level, high-water mark and identity stay, its data-flow level does not
-- rise, and its budget is not overdrawn.
pub record Tainted (s u : Session) : Type 0 where
  pub control_flow : u.t_eff_ctl ≡ s.t_eff_ctl
  pub secrecy : u.c_eff ≡ s.c_eff
  pub data_flow : trust_level u.t_eff ≤ trust_level s.t_eff
  pub spends : s.capacity_used_bits ≤ u.capacity_used_bits
  pub within : (u.capacity_used_bits ≤ 4) ⊎ (u.capacity_used_bits ≡ s.capacity_used_bits)
  pub consulted : u.consulted ≡ s.consulted

abbrev pub AllTainted : SessionStore → SessionStore → Type 0
AllTainted [] [] = Unit {0}
AllTainted [] (y ∷ ys) = ⊥
AllTainted (x ∷ xs) [] = ⊥
AllTainted (x ∷ xs) (y ∷ ys) =
    (x.sid ≡ y.sid) × (x.aid ≡ y.aid) × Tainted x.session y.session × AllTainted xs ys

Tainted-refl : (s : Session) → Tainted s s
Tainted-refl s = ground arith

Tainted-trans : (s t u : Session) → Tainted s t → Tainted t u → Tainted s u
Tainted-trans s t u h k = ground arith

AllTainted-refl : (xs : SessionStore) → AllTainted xs xs
AllTainted-refl [] = tt
AllTainted-refl (x ∷ xs) = (refl, refl, Tainted-refl x.session, AllTainted-refl xs)

AllTainted-trans :
    (xs ys zs : SessionStore) → AllTainted xs ys → AllTainted ys zs → AllTainted xs zs
AllTainted-trans [] [] [] h k = tt
AllTainted-trans (x ∷ xs) (y ∷ ys) (z ∷ zs) h k =
    (h.0 ∙ k.0, h.1 ∙ k.1, Tainted-trans _ _ _ h.2 k.2, AllTainted-trans xs ys zs h.3 k.3)
AllTainted-trans [] [] (z ∷ zs) h k = k
AllTainted-trans [] (y ∷ ys) zs h k = absurd h
AllTainted-trans (x ∷ xs) [] zs h k = absurd h
AllTainted-trans (x ∷ xs) (y ∷ ys) [] h k = k

max_clearance-public : (c : Clearance) → max_clearance c l0_public ≡ c
unfolding clearance_level
max_clearance-public c =
    eq_of_clearance_level _ _ (omega (arith, clearance_level-max_clearance c l0_public))

absorb_bounded-Tainted :
    (s : Session) (var : String) (t : Trust) → Tainted s (absorb s var l0_public t bounded)
unfolding absorb
absorb_bounded-Tainted s var t =
    ground (arith, trust_level-min_trust s.t_eff t, max_clearance-public s.c_eff)

consume_bits-Tainted : (s : Session) (bits : ℕ) → Tainted s (consume_bits s bits).0
unfolding consume_bits
consume_bits-Tainted s bits = ground arith

absorb_all-AllTainted :
    (st : SessionStore) (sid var : String) (t : Trust) → AllTainted st (absorb_all st sid var t)
unfolding absorb_all
absorb_all-AllTainted [] sid var t = tt
absorb_all-AllTainted (e ∷ es) sid var t = elim (Bool-cases (str_eq e.sid sid)) [
  | inl hit ↦
      rw hit
        (refl, refl, absorb_bounded-Tainted e.session var t, absorb_all-AllTainted es sid var t)
  | inr miss ↦ rw miss (refl, refl, Tainted-refl e.session, absorb_all-AllTainted es sid var t)
]

charge-AllTainted :
    (st : SessionStore) (sid : String) (cost : ℕ) → AllTainted st (charge st sid cost).0
unfolding charge
charge-AllTainted [] sid cost = tt
charge-AllTainted (e ∷ es) sid cost = elim (Bool-cases (str_eq e.sid sid)) [
  | inl hit ↦ rw hit (refl, refl, consume_bits-Tainted e.session cost, AllTainted-refl es)
  | inr miss ↦ rw miss (refl, refl, Tainted-refl e.session, charge-AllTainted es sid cost)
]

-- A constrained query never moves a control-flow level, a high-water mark or a set of consulted
-- chunks, lifts no data-flow level, and overdraws no budget, in any session of the store.
pub consume_ctl-AllTainted :
    (st : SessionStore) (sid : String) (cost : ℕ) (source : Option Trust)
    → AllTainted st (consume_ctl st sid cost source).0
unfolding consume_ctl
consume_ctl-AllTainted st sid cost none = elim (Bool-cases (charge st sid cost).1) [
  | inl paid ↦ rw paid (charge-AllTainted st sid cost)
  | inr refused ↦ rw refused (charge-AllTainted st sid cost)
]
consume_ctl-AllTainted st sid cost (some t) = elim (Bool-cases (charge st sid cost).1) [
  | inl paid ↦
      rw paid
        (AllTainted-trans _ _ _ (charge-AllTainted st sid cost) (absorb_all-AllTainted _ sid _ t))
  | inr refused ↦ rw refused (charge-AllTainted st sid cost)
]

charge_refused :
    (st : SessionStore) (sid : String) (cost : ℕ)
    → (charge st sid cost).1 ≡ false
    → (charge st sid cost).0 ≡ st
unfolding charge consume_bits
charge_refused [] sid cost h = refl
charge_refused (e ∷ es) sid cost h = ground (arith, charge_refused es sid cost)

-- A query that is refused leaves the store as it was.
pub consume_ctl_refused :
    (st : SessionStore) (sid : String) (cost : ℕ) (source : Option Trust)
    → (consume_ctl st sid cost source).1 ≡ false
    → (consume_ctl st sid cost source).0 ≡ st
unfolding consume_ctl
consume_ctl_refused st sid cost source h = ground (arith, charge_refused st sid cost)
