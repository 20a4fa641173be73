-- ===== src/Pdp/Read.antt =====
-- core/pdp.py: `can_read` and `can_read_scoped`.
use trustmem.Prelude.{
  ℕ, Bool, true, false, ◌&&◌, ◌||◌, Option, none, some, List, [], ◌∷◌, ◌++◌, ltb, if◌then◌else◌,
}
use trustmem.Labels.{AgentLabel, MemoryLabel, Trust, Clearance}
use trustmem.Labels.Lattice.{trust_level, trust_leb, clearance_leb, min_trust, max_clearance}
use trustmem.Topology.{Networkx}
use trustmem.Scope.{TaskScope}
use trustmem.Session
use trustmem.Session.{Session}
use trustmem.Sessions.{is_consult}
use trustmem.Verdict.{
  Verdict, allow, hide, deny, ingest_mode, task_scope_c, task_scope_t, Denial, by_rule,
  ingest_mode_consult, read, Check, Decision, all_passed, first_failed,
}
use trustmem.Pdp.Hard.{Pdp, check, bypassed, hard_checks}

-- A decision on a read.
abbrev pub read_decision :
    Verdict
    → AgentLabel
    → MemoryLabel
    → Session
    → List Check
    → Option Denial
    → Bool
    → Option (Clearance × Trust)
    → Decision
read_decision v agent mem sess ck denied_by hideable pending = record {
  verdict = v;
  action = read;
  subject = agent.agent_id;
  object = mem.chunk_id;
  checks = ck;
  denied_by = denied_by;
  session_id = sess.session_id;
  hideable = hideable;
  pending_absorb = pending;
}

-- The levels that the session would have after the read.
unfoldable pub would_c : Session → MemoryLabel → Clearance
would_c sess mem = max_clearance sess.c_eff mem.sensitivity

unfoldable pub would_t : Session → MemoryLabel → Trust
would_t sess mem = min_trust sess.t_eff_ctl mem.provenance_trust

unfoldable pub consults : TaskScope → MemoryLabel → Bool
consults scope mem =
    is_consult scope.ingest
    || ltb (trust_level mem.provenance_trust) (trust_level scope.consult_below)

module _ (nx : Networkx) where
  unfoldable pub can_read : Pdp nx → AgentLabel → MemoryLabel → Session → ℕ → Option ℕ → Decision
  can_read pdp agent mem sess now epoch_current =
      let ck = hard_checks nx pdp.topo agent mem now epoch_current in
      if pdp.bypass_all
      then bypassed read agent.agent_id mem.chunk_id sess
      else if all_passed ck
      then read_decision allow agent mem sess ck none true
          (some (mem.sensitivity, mem.provenance_trust))
      else read_decision deny agent mem sess ck (first_failed ck) false none

  -- The test of the interval, with the hypothetical levels.
  interval : Pdp nx → AgentLabel → MemoryLabel → Session → TaskScope → List Check → Decision
  interval pdp agent mem sess scope ck =
      let ok_c = clearance_leb (would_c sess mem) scope.c_ctx_max in
      let ok_t = trust_leb scope.t_ctx_min (would_t sess mem) in
      let ck' = ck ++ check task_scope_c ok_c ∷ check task_scope_t ok_t ∷ [] in
      if ok_c && ok_t
      then read_decision allow agent mem sess ck' none true
          (some (mem.sensitivity, mem.provenance_trust))
      else read_decision (if pdp.hide_enabled then hide else deny) agent mem sess ck'
          (some (by_rule (if ok_c then task_scope_t else task_scope_c))) true none

  unfoldable pub can_read_scoped :
      Pdp nx → AgentLabel → MemoryLabel → Session → TaskScope → ℕ → Option ℕ → Decision × Session
  unfolding interval
  can_read_scoped pdp agent mem sess scope now epoch_current =
      let hard = hard_checks nx pdp.topo agent mem now epoch_current in
      let ck = hard ++ check ingest_mode true ∷ [] in
      if pdp.bypass_all
      then (bypassed read agent.agent_id mem.chunk_id sess, sess)
      else if all_passed hard
      then (if consults scope mem
          then (
            read_decision hide agent mem sess ck (some ingest_mode_consult) true none,
            Session.consult sess mem.chunk_id,
          )
          else (interval pdp agent mem sess scope ck, sess))
      else (read_decision deny agent mem sess hard (first_failed hard) false none, sess)
