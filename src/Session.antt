-- ===== src/Session.antt =====
-- core/session.py: `Session`, the state of one agent in one task. The control-flow budget is a
-- number of whole bits: the code's costs are 1.0 and values rounded up. The records of reads have
-- no time stamp.
pub mod LowWater
use trustmem.Prelude.{
  ℕ, ◌+◌, String, Bool, true, false, List, [], ◌∷◌, ◌++◌, ltb, if◌then◌else◌, contains, add,
}
use trustmem.Labels.{Clearance, l0_public, Trust, AgentLabel}
use trustmem.Labels.Lattice.{min_trust, max_trust, max_clearance}

pub data AbsorbMode : Type 0 where
  full bounded : AbsorbMode

pub record ReadRecord : Type 0 where
  pub chunk_id : String
  pub trust : Trust
  pub sensitivity : Clearance
  pub mode : AbsorbMode
  pub t_eff_before : Trust
  pub t_eff_after : Trust

pub record Session : Type 0 where
  pub session_id : String
  pub agent_id : String
  pub task_id : String
  pub t_eff : Trust
  pub t_intrinsic : Trust
  pub reads : List ReadRecord
  pub hitl_confirmations : List String
  pub consulted : List String
  pub c_eff : Clearance
  pub c_intrinsic : Clearance
  pub t_eff_ctl : Trust
  pub capacity_used_bits : ℕ

abbrev pub capacity_budget_bits : ℕ
capacity_budget_bits = 4

unfoldable pub start : String → AgentLabel → String → Session
start session_id agent task_id = record {
  session_id = session_id;
  agent_id = agent.agent_id;
  task_id = task_id;
  t_eff = agent.trust_intrinsic;
  t_intrinsic = agent.trust_intrinsic;
  reads = [];
  hitl_confirmations = [];
  consulted = [];
  c_eff = l0_public;
  c_intrinsic = agent.clearance;
  t_eff_ctl = agent.trust_intrinsic;
  capacity_used_bits = 0;
}

-- The control-flow level falls under an unbounded expansion alone.
unfoldable pub control_after : AbsorbMode → Trust → Trust → Trust
control_after full t_eff_ctl trust = min_trust t_eff_ctl trust
control_after bounded t_eff_ctl trust = t_eff_ctl

unfoldable pub absorb : Session → String → Clearance → Trust → AbsorbMode → Session
unfolding control_after
absorb s chunk_id sensitivity trust mode = record s {
  t_eff = min_trust s.t_eff trust;
  t_eff_ctl = control_after mode s.t_eff_ctl trust;
  c_eff = max_clearance s.c_eff sensitivity;
  reads =
      s.reads
      ++ record {
        chunk_id = chunk_id;
        trust = trust;
        sensitivity = sensitivity;
        mode = mode;
        t_eff_before = s.t_eff;
        t_eff_after = min_trust s.t_eff trust;
      }
        ∷ [];
}

unfoldable pub consult : Session → String → Session
consult s chunk_id = record s { consulted = add chunk_id s.consulted }

-- `_raise_trust_via_gate`
unfoldable pub raise_trust_via_gate : Session → Trust → Session
raise_trust_via_gate s new_trust = record s { t_eff = max_trust s.t_eff new_trust }

unfoldable pub consume_bits : Session → ℕ → Session × Bool
consume_bits s bits =
    if ltb capacity_budget_bits (s.capacity_used_bits + bits)
    then (s, false)
    else (record s { capacity_used_bits = s.capacity_used_bits + bits }, true)

unfoldable pub reset : Session → Session
reset s = record s {
  t_eff = s.t_intrinsic;
  c_eff = l0_public;
  t_eff_ctl = s.t_intrinsic;
  capacity_used_bits = 0;
  reads = [];
  hitl_confirmations = [];
  consulted = [];
}

unfoldable pub add_hitl : Session → String → Session
add_hitl s action_fingerprint = record s {
  hitl_confirmations = add action_fingerprint s.hitl_confirmations;
}

unfoldable pub has_hitl : Session → String → Bool
has_hitl s action_fingerprint = contains action_fingerprint s.hitl_confirmations

-- A call of a method that changes a session; `raises` is the gate's, which the upgrader alone makes.
pub data Op : Type 0 where
  absorbs : String → Clearance → Trust → AbsorbMode → Op
  consults : String → Op
  consumes : ℕ → Op
  confirms : String → Op
  raises : Trust → Op
  resets : Op

unfoldable pub step : Session → Op → Session
step s (absorbs chunk_id c t mode) = absorb s chunk_id c t mode
step s (consults chunk_id) = consult s chunk_id
step s (consumes bits) = (consume_bits s bits).0
step s (confirms fp) = add_hitl s fp
step s (raises new_trust) = raise_trust_via_gate s new_trust
step s resets = reset s

unfoldable pub run : Session → List Op → Session
run s [] = s
run s (op ∷ ops) = run (step s op) ops
