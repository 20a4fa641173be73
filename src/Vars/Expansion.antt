-- ===== src/Vars/Expansion.antt =====
-- What an expansion of a handle does to the session.
use trustmem.Prelude.{◌+◌, ◌-◌, ◌≤◌, ◌≡◌, ◌⊎◌, refl, String, none, some, arith, inr}
use trustmem.Result.{ok}
use trustmem.Labels.Lattice.{trust_level, trust_level-min_trust, min_trust, max_clearance}
use trustmem.Session.{Session, full, bounded, absorb, capacity_budget_bits, consume_bits}
use trustmem.Vars.{
  VarHandle, VarStore, VType, Bits, bits, unbounded, capacity_of, ExpandResult, charge_expansion,
  get, expand,
}

-- The answer fits the threshold and what is left of the session's budget.
abbrev pub Affordable : Session → Bits → Type 0
Affordable sess unbounded = ⊥
Affordable sess (bits n) = (n ≤ 4) × (sess.capacity_used_bits + n ≤ 4)

-- A bounded expansion of the handle `h` at the cost of `n` bits.
abbrev pub BoundedEffect : VarHandle → Session → Session → Bits → Type 0
BoundedEffect h sess after unbounded = ⊥
BoundedEffect h sess after (bits n) =
    Affordable sess (bits n)
    × (after.t_eff_ctl ≡ sess.t_eff_ctl)
    × (after.capacity_used_bits ≡ sess.capacity_used_bits + n)

abbrev pub FullEffect : VarHandle → Session → Session → Bits → Type 0
FullEffect h sess after b =
    (¬ Affordable sess b)
    × (trust_level after.t_eff_ctl ≤ trust_level h.source_trust)
    × (after.capacity_used_bits ≡ sess.capacity_used_bits)

module _ (h : VarHandle) (sess : Session) where
  abbrev after : Bits → Session
  after b =
      absorb (charge_expansion sess b).0 h.chunk_id h.sensitivity h.source_trust
        (charge_expansion sess b).1

  charged_effect :
      (b : Bits)
      → (((charge_expansion sess b).1 ≡ bounded) × BoundedEffect h sess (after b) b)
        ⊎ (((charge_expansion sess b).1 ≡ full) × FullEffect h sess (after b) b)
  unfolding charge_expansion consume_bits absorb
  charged_effect unbounded =
      inr (refl, (λ x. x, omega (arith, trust_level-min_trust sess.t_eff_ctl h.source_trust), refl))
  charged_effect (bits n) = ground (arith, trust_level-min_trust sess.t_eff_ctl h.source_trust)

  same_levels :
      (b : Bits)
      → ((after b).t_eff ≡ min_trust sess.t_eff h.source_trust)
        × ((after b).c_eff ≡ max_clearance sess.c_eff h.sensitivity)
  unfolding charge_expansion consume_bits absorb
  same_levels unbounded = (refl, refl)
  same_levels (bits n) = ground (arith)

  -- What an expansion of a handle at the cost `b` has to be: its result and the session after it.
  abbrev pub ExpandsAs : Bits → ExpandResult → Session → Type 0
  ExpandsAs b r s =
      (((r.mode ≡ bounded) × BoundedEffect h sess s b) ⊎ ((r.mode ≡ full) × FullEffect h sess s b))
      × (s.t_eff ≡ min_trust sess.t_eff h.source_trust)
      × (s.c_eff ≡ max_clearance sess.c_eff h.sensitivity)

-- Expanding a stored handle to a type of known capacity succeeds, and it is bounded exactly when
-- the answer is affordable. Then its bits are charged and the control-flow level stays; otherwise
-- nothing is charged, and the control-flow level falls to at most that of the source. In both cases
-- the data-flow level falls to the meet with that of the source, and the high-water mark rises to
-- the join with its clearance.
pub expand_effect :
    (vs : VarStore) (sess : Session) (id : String) (t : VType) (h : VarHandle) (b : Bits)
    → get vs id ≡ some h
    → capacity_of t ≡ ok b
    → (p : ExpandResult × Session) × ((expand vs sess id t none none ≡ ok p)
        × ExpandsAs h sess b p.0 p.1)
unfolding expand
expand_effect vs sess id t h b held c = (
  (
    record {
      var_id = id;
      used = b;
      mode = (charge_expansion sess b).1;
      budget_remaining = capacity_budget_bits - (after h sess b).capacity_used_bits;
    },
    after h sess b,
  ),
  (
    ground (arith, held, c),
    (charged_effect h sess b, (same_levels h sess b).0, (same_levels h sess b).1),
  ),
)
