-- ===== src/Session/LowWater.antt =====
-- The two low-water marks and the high-water mark of a session, against its log of reads and what
-- the gate raised in between.
use trustmem.Prelude.{ℕ, ◌≤◌, ◌≡◌, String, List, [], ◌∷◌, ◌++◌, min, max, arith, refl, ap}
use mathlib.Core.List.{append-nil}
use trustmem.Labels.{Clearance, Trust, AgentLabel}
use trustmem.Labels.Lattice.{
  trust_level, clearance_level, min_trust, trust_level-min_trust, trust_level-max_trust,
  clearance_level-max_clearance,
}
use trustmem.Session.{
  Session, ReadRecord, AbsorbMode, full, bounded, start, absorb, consult, consume_bits, reset,
  add_hitl, raise_trust_via_gate, Op, absorbs, consults, consumes, confirms, raises, resets, step,
  run,
}

-- What moved the data-flow level: a read, or the gate.
pub data Event : Type 0 where
  was_read : ReadRecord → Event
  was_raised : Trust → Event

unfoldable pub reads_in : List Event → List ReadRecord
reads_in [] = []
reads_in (was_read r ∷ es) = r ∷ reads_in es
reads_in (was_raised t ∷ es) = reads_in es

-- The levels that a history accounts for, from the level at the start.
unfoldable pub data_mark : ℕ → List Event → ℕ
data_mark n [] = n
data_mark n (was_read r ∷ es) = data_mark (min n (trust_level r.trust)) es
data_mark n (was_raised t ∷ es) = data_mark (max n (trust_level t)) es

abbrev control_read : AbsorbMode → ℕ → Trust → ℕ
control_read full n t = min n (trust_level t)
control_read bounded n t = n

unfoldable pub control_mark : ℕ → List ReadRecord → ℕ
control_mark n [] = n
control_mark n (r ∷ rs) = control_mark (control_read r.mode n r.trust) rs

unfoldable pub secrecy_mark : ℕ → List ReadRecord → ℕ
secrecy_mark n [] = n
secrecy_mark n (r ∷ rs) = secrecy_mark (max n (clearance_level r.sensitivity)) rs

-- Against a history since the last reset: its reads are the session's log, the data-flow level is
-- what the reads and the gate account for, the control-flow level and the confidentiality are what
-- the reads alone account for, and the budget is not overdrawn.
pub record IsAccounted (s : Session) (es : List Event) : Type 0 where
  pub log : reads_in es ≡ s.reads
  pub data_flow : trust_level s.t_eff ≡ data_mark (trust_level s.t_intrinsic) es
  pub control_flow : trust_level s.t_eff_ctl ≡ control_mark (trust_level s.t_intrinsic) s.reads
  pub secrecy : clearance_level s.c_eff ≡ secrecy_mark 0 s.reads
  pub within_budget : s.capacity_used_bits ≤ 4

reads_in-append :
    (es : List Event) (e : Event) → reads_in (es ++ e ∷ []) ≡ reads_in es ++ reads_in (e ∷ [])
unfolding reads_in
reads_in-append [] (was_read r) = refl
reads_in-append [] (was_raised t) = refl
reads_in-append (was_read r ∷ es) e = ap (λ rs. r ∷ rs) (reads_in-append es e)
reads_in-append (was_raised t ∷ es) e = reads_in-append es e

data_mark-append :
    (n : ℕ) (es : List Event) (e : Event)
    → data_mark n (es ++ e ∷ []) ≡ data_mark (data_mark n es) (e ∷ [])
unfolding data_mark
data_mark-append n [] e = refl
data_mark-append n (was_read r ∷ es) e = data_mark-append (min n (trust_level r.trust)) es e
data_mark-append n (was_raised t ∷ es) e = data_mark-append (max n (trust_level t)) es e

control_mark-append :
    (n : ℕ) (rs : List ReadRecord) (r : ReadRecord)
    → control_mark n (rs ++ r ∷ []) ≡ control_read r.mode (control_mark n rs) r.trust
unfolding control_mark
control_mark-append n [] r = ground arith
control_mark-append n (x ∷ rs) r = control_mark-append (control_read x.mode n x.trust) rs r

secrecy_mark-append :
    (n : ℕ) (rs : List ReadRecord) (r : ReadRecord)
    → secrecy_mark n (rs ++ r ∷ []) ≡ max (secrecy_mark n rs) (clearance_level r.sensitivity)
unfolding secrecy_mark
secrecy_mark-append n [] r = omega arith
secrecy_mark-append n (x ∷ rs) r = secrecy_mark-append (max n (clearance_level x.sensitivity)) rs r

pub start-IsAccounted :
    (sid : String) (a : AgentLabel) (task : String) → IsAccounted (start sid a task) []
unfolding start reads_in data_mark control_mark secrecy_mark clearance_level
start-IsAccounted sid a task = record {
  log = refl;
  data_flow = refl;
  control_flow = refl;
  secrecy = refl;
  within_budget = omega arith;
}

-- The record that a read leaves.
abbrev record_of : Session → String → Clearance → Trust → AbsorbMode → ReadRecord
record_of s id c t mode = record {
  chunk_id = id;
  trust = t;
  sensitivity = c;
  mode = mode;
  t_eff_before = s.t_eff;
  t_eff_after = min_trust s.t_eff t;
}

-- The history after a call: a read and a raise are added to it, and a reset empties it.
unfoldable pub after : Session → List Event → Op → List Event
after s es (absorbs id c t mode) = es ++ was_read (record_of s id c t mode) ∷ []
after s es (raises t) = es ++ was_raised t ∷ []
after s es resets = []
after s es op = es

control-absorb :
    (s : Session) (id : String) (c : Clearance) (t : Trust) (mode : AbsorbMode) (n : ℕ)
    → trust_level s.t_eff_ctl ≡ n
    → trust_level (absorb s id c t mode).t_eff_ctl ≡ control_read mode n t
unfolding absorb
control-absorb s id c t full n h = omega (arith, trust_level-min_trust s.t_eff_ctl t, h)
control-absorb s id c t bounded n h = h

absorb-IsAccounted :
    (s : Session) (es : List Event) (id : String) (c : Clearance) (t : Trust) (mode : AbsorbMode)
    → IsAccounted s es
    → IsAccounted (absorb s id c t mode) (es ++ was_read (record_of s id c t mode) ∷ [])
unfolding absorb reads_in data_mark
absorb-IsAccounted s es id c t mode h = record {
  log = rw (reads_in-append, h.log) refl;
  data_flow = rw data_mark-append (omega (arith, trust_level-min_trust s.t_eff t, h.data_flow));
  control_flow = rw control_mark-append (control-absorb s id c t mode _ h.control_flow);
  secrecy =
      rw secrecy_mark-append (omega (arith, clearance_level-max_clearance s.c_eff c, h.secrecy));
  within_budget = h.within_budget;
}

raise-IsAccounted :
    (s : Session) (es : List Event) (t : Trust)
    → IsAccounted s es
    → IsAccounted (raise_trust_via_gate s t) (es ++ was_raised t ∷ [])
unfolding raise_trust_via_gate reads_in data_mark
raise-IsAccounted s es t h = record {
  log = rw (reads_in-append, h.log) (append-nil s.reads);
  data_flow = rw data_mark-append (omega (arith, trust_level-max_trust s.t_eff t, h.data_flow));
  control_flow = h.control_flow;
  secrecy = h.secrecy;
  within_budget = h.within_budget;
}

step-IsAccounted :
    (s : Session) (es : List Event) (op : Op)
    → IsAccounted s es
    → IsAccounted (step s op) (after s es op)
unfolding step after consult consume_bits reset add_hitl data_mark control_mark secrecy_mark
    clearance_level reads_in
step-IsAccounted s es (absorbs id c t mode) h = absorb-IsAccounted s es id c t mode h
step-IsAccounted s es (consults id) h = assumption
step-IsAccounted s es (consumes bits) h = ground arith
step-IsAccounted s es (confirms fp) h = assumption
step-IsAccounted s es (raises t) h = raise-IsAccounted s es t h
step-IsAccounted s es resets h = record {
  log = refl;
  data_flow = refl;
  control_flow = refl;
  secrecy = refl;
  within_budget = omega arith;
}

-- The history after calls one after the other.
unfoldable pub history : Session → List Event → List Op → List Event
history s es [] = es
history s es (op ∷ ops) = history (step s op) (after s es op) ops

-- Whatever the calls of a session's methods, the gate's included: the data-flow level stays what
-- the reads and the gate since the last reset account for in their order, the control-flow level
-- and the confidentiality what the log of reads accounts for, and the budget stays within four bits.
pub run-IsAccounted :
    (s : Session) (es : List Event) (ops : List Op)
    → IsAccounted s es
    → IsAccounted (run s ops) (history s es ops)
unfolding run history
run-IsAccounted s es [] h = h
run-IsAccounted s es (op ∷ ops) h =
    run-IsAccounted (step s op) (after s es op) ops (step-IsAccounted s es op h)
