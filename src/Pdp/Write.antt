-- ===== src/Pdp/Write.antt =====
-- core/pdp.py: `can_write`.
use Prim.Native.String.{◌++◌ as str_append}
use mathlib.Core.Option.{get_or}
use trustmem.Prelude.{
  ◌-◌, String, Bool, true, false, ◌&&◌, not, Option, none, some, List, [], ◌∷◌, ltb, if◌then◌else◌,
  contains, nonempty, lookup, any,
}
use trustmem.Labels.{
  AgentLabel, MemoryLabel, Clearance, l0_public, l1_internal, l2_sensitive, l3_secret, Trust,
  t2_medium, t3_high, Layer, directive, conclusion, reasoning, WriteOp, export_tool_required_trust,
}
use trustmem.Labels.Lattice.{clearance_level, trust_leb, clearance_leb, meet_trust, trusts}
use trustmem.Topology.{Networkx, children}
use trustmem.Session.{Session, has_hitl}
use trustmem.Decay.{Matcher, Evidence, DecayResult, compute_trust}
use trustmem.Verdict.{
  Verdict, allow, deny, p_t_control_flow, provenance_no_consult, biba_star, blp_star,
  c_eff_write_down, layer_write, Denial, by_rule, no_write_down, write, Check, Decision, all_passed,
  first_failed,
}
use trustmem.Pdp.Hard.{Pdp, check, bypassed}

-- `fmt(c)`
unfoldable pub fmt_clearance : Clearance → String
fmt_clearance l0_public = "L0"
fmt_clearance l1_internal = "L1"
fmt_clearance l2_sensitive = "L2"
fmt_clearance l3_secret = "L3"

unfoldable pub layer_value : Layer → String
layer_value directive = "D"
layer_value conclusion = "C"
layer_value reasoning = "R"

-- `f"<new {layer}/{level}>"`
unfoldable pub new_object : Layer → Clearance → String
unfolding fmt_clearance layer_value
new_object l c =
    str_append "<new "
      (str_append (layer_value l) (str_append "/" (str_append (fmt_clearance c) ">")))

-- `f"declassify:{agent_id}:{level}"`
unfoldable pub declassify_fp : AgentLabel → Clearance → String
unfolding fmt_clearance
declassify_fp agent c =
    str_append "declassify:" (str_append agent.agent_id (str_append ":" (fmt_clearance c)))

abbrev pub is_directive : Layer → Bool
is_directive directive = true
is_directive l = false

-- `EXPORT_TOOL_REQUIRED_TRUST.get("memory.write", Trust.T2_MEDIUM)`
unfoldable pub required_for_write : Trust
unfolding lookup
required_for_write = get_or (lookup "memory.write" export_tool_required_trust) t2_medium

-- What a write asks for.
pub record WriteCall : Type 0 where
  pub agent : AgentLabel
  pub target_sensitivity : Clearance
  pub target_layer : Layer
  pub input_mems : List MemoryLabel
  pub op : WriteOp
  pub evidence : Evidence
  pub declassify_approved : Bool

-- The *-property: writes at the subject's level or above, the approved and confirmed
-- declassification of a directive, and writes at most two levels down.
unfoldable pub ok_blp_star : WriteCall → Session → Bool
ok_blp_star w sess =
    if clearance_leb w.agent.clearance w.target_sensitivity
    then true
    else if is_directive w.target_layer && w.declassify_approved
    then has_hitl sess (declassify_fp w.agent w.target_sensitivity)
    else not (ltb 2 (clearance_level w.agent.clearance - clearance_level w.target_sensitivity))

unfoldable pub consulted_inputs : WriteCall → Session → Bool
consulted_inputs w sess = any (λ x. contains x.chunk_id sess.consulted) w.input_mems

abbrev pub write_decision : Verdict → WriteCall → Session → List Check → Option Denial → Decision
write_decision v w sess ck denied_by = record {
  verdict = v;
  action = write;
  subject = w.agent.agent_id;
  object = new_object w.target_layer w.target_sensitivity;
  checks = ck;
  denied_by = denied_by;
  session_id = sess.session_id;
  hideable = true;
  pending_absorb = none;
}

-- A failed write-down is reported by the names of the checks that refused it.
unfoldable pub write_denial : Bool → Bool → List Check → Option Denial
write_denial true true ck = first_failed ck
write_denial false true ck = some (no_write_down (blp_star ∷ []))
write_denial true false ck = some (no_write_down (c_eff_write_down ∷ []))
write_denial false false ck = some (no_write_down (blp_star ∷ c_eff_write_down ∷ []))

-- The result under `bypass_all`, with the full trust.
abbrev pub bypass_decay : WriteCall → DecayResult
bypass_decay w = record {
  trust_out = t3_high;
  op_claimed = w.op;
  op_effective = w.op;
  t_inputs = meet_trust (trusts w.input_mems);
  t_agent = t3_high;
  delta = 0;
  downgraded_reason = none;
}

module _ (m : Matcher) where
  unfoldable pub decay_of : WriteCall → Session → DecayResult
  decay_of w sess = compute_trust m w.input_mems sess.t_eff w.op w.evidence

module _ (nx : Networkx) where
  unfoldable pub ok_layer_write : Pdp nx → WriteCall → Bool
  ok_layer_write pdp w =
      not (is_directive w.target_layer && not (nonempty (children nx pdp.topo w.agent.agent_id)))

module _ (nx : Networkx) (m : Matcher) where
  -- The checks made after the inputs are known to be free of consulted chunks.
  star_checks : Pdp nx → WriteCall → Session → List Check
  star_checks pdp w sess =
      check p_t_control_flow (trust_leb required_for_write sess.t_eff_ctl)
      ∷ check provenance_no_consult true
      ∷ check biba_star (trust_leb (decay_of m w sess).trust_out sess.t_eff)
      ∷ check blp_star (ok_blp_star w sess)
      ∷ check c_eff_write_down (clearance_leb sess.c_eff w.target_sensitivity)
      ∷ check layer_write (ok_layer_write nx pdp w)
      ∷ []

  unfoldable pub can_write : Pdp nx → WriteCall → Session → Decision × DecayResult
  unfolding star_checks
  can_write pdp w sess =
      let ck = star_checks pdp w sess in
      let ok_c_eff = clearance_leb sess.c_eff w.target_sensitivity in
      if pdp.bypass_all
      then (
        bypassed write w.agent.agent_id (new_object w.target_layer w.target_sensitivity) sess,
        bypass_decay w,
      )
      else if consulted_inputs w sess
      then (
        write_decision deny w sess
            (check p_t_control_flow (trust_leb required_for_write sess.t_eff_ctl)
              ∷ check provenance_no_consult false
              ∷ [])
            (some (by_rule provenance_no_consult)),
        decay_of m w sess,
      )
      else if all_passed ck
      then (write_decision allow w sess ck none, decay_of m w sess)
      else (
        write_decision deny w sess ck (write_denial (ok_blp_star w sess) ok_c_eff ck),
        decay_of m w sess,
      )
