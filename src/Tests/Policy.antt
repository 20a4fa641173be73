-- ===== src/Tests/Policy.antt =====
-- The policy engine on concrete labels.
use trustmem.Prelude.{
  ◌-◌, ◌≤◌, ◌≡◌, ◌≢◌, ◌↔◌, ◌⊎◌, refl, min, true, false, none, some, [], ◌∷◌, All, arith, contains,
  nonempty, any,
}
use trustmem.Labels.{directive, verbatim, extract, infer, t2_medium}
use trustmem.Labels.Lattice.{trust_level, clearance_level, meet_trust, trusts}
use trustmem.Topology.{children}
use trustmem.Session.{start, has_hitl}
use trustmem.Decay.{compute_trust, delta_of, verify_op, any_too_long}
use trustmem.Decay.Laws.{compute_trust-le, Escapes, delta_zero_iff, overlaps}
use trustmem.Verdict.{allow, hide, confirm}
use trustmem.Capability.{capability_level, dangerous_level, system_level}
use trustmem.Pdp.Read.{can_read_scoped}
use trustmem.Pdp.Write.{can_write}
use trustmem.Pdp.Invoke.{InvokeCall, can_invoke}
use trustmem.Pdp.Confidentiality.{Cleared}
use trustmem.Pdp.Interval.{
  IsConsulted, InInterval, InScope, can_read_scoped-allow_iff, can_read_scoped-hide_iff,
}
use trustmem.Pdp.WriteBack.{NoWriteDown, can_write-allow_iff}
use trustmem.Pdp.Authorization.{Authorized, can_invoke_verdict}
use trustmem.Tests.Graph.{graph}
use trustmem.Tests.Fixtures.{agent, note, session, pdp, scope, strict, matcher, call}

can_read_scoped-allow_iff_example :
    ((can_read_scoped graph pdp agent note session scope 5 none).0.verdict ≡ allow) ↔ (
      Cleared graph pdp.topo agent note 5 none
      × (¬ IsConsulted note scope)
      × InInterval session note scope)
can_read_scoped-allow_iff_example =
    can_read_scoped-allow_iff graph pdp agent note session scope 5 none refl

can_read_scoped-hide_iff_example :
    ((can_read_scoped graph pdp agent note session strict 5 none).0.verdict ≡ hide) ↔ (
      Cleared graph pdp.topo agent note 5 none
      × (IsConsulted note strict ⊎ (¬ InInterval session note strict)))
can_read_scoped-hide_iff_example =
    can_read_scoped-hide_iff graph pdp agent note session strict 5 none refl refl

started : InScope scope session
unfolding start clearance_level trust_level
started = (omega arith, omega arith)

can_write-allow_iff_example : ((can_write graph matcher pdp call session).0.verdict ≡ allow) ↔ (
    (1 ≤ trust_level session.t_eff_ctl)
    × All (λ x. contains x.chunk_id session.consulted ≡ false) call.input_mems
    × NoWriteDown call session
    × (clearance_level session.c_eff ≤ clearance_level call.target_sensitivity)
    × ((call.target_layer ≢ directive)
        ⊎ (nonempty (children graph pdp.topo agent.agent_id) ≡ true)))
can_write-allow_iff_example = can_write-allow_iff graph matcher pdp call session refl

abbrev isolate : InvokeCall
isolate = record {
  agent = agent;
  tool = "host_isolate";
  action_fingerprint = "fp";
  provenance = note ∷ [];
  arg_labels = [];
}

can_invoke_verdict_example :
    (((can_invoke graph pdp isolate session).verdict ≡ allow) ↔ (
      (capability_level "host_isolate" ≢ system_level)
      × Authorized isolate session
      × ((capability_level "host_isolate" ≢ dangerous_level) ⊎ (has_hitl session "fp" ≡ true))))
    × (((can_invoke graph pdp isolate session).verdict ≡ confirm) ↔ (
        (capability_level "host_isolate" ≡ dangerous_level)
        × Authorized isolate session
        × (has_hitl session "fp" ≡ false)))
can_invoke_verdict_example = can_invoke_verdict graph pdp isolate session refl

compute_trust-le_example :
    (trust_level (compute_trust matcher (note ∷ []) t2_medium infer call.evidence).trust_out
      ≤ trust_level t2_medium)
    × All
        (λ x.
          trust_level (compute_trust matcher (note ∷ []) t2_medium infer call.evidence).trust_out
          ≤ trust_level x.provenance_trust)
        (note ∷ [])
    × ((Escapes matcher infer call.evidence
          × (trust_level (compute_trust matcher (note ∷ []) t2_medium infer call.evidence).trust_out
              ≡ min (trust_level (meet_trust (trusts (note ∷ [])))) (trust_level t2_medium)))
        ⊎ ((¬ Escapes matcher infer call.evidence)
            × (trust_level
                  (compute_trust matcher (note ∷ []) t2_medium infer call.evidence).trust_out
                ≡ min (trust_level (meet_trust (trusts (note ∷ [])))) (trust_level t2_medium) - 1)))
compute_trust-le_example = compute_trust-le matcher (note ∷ []) t2_medium infer call.evidence

delta_zero_iff_example : (delta_of (verify_op matcher verbatim call.evidence).0 ≡ 0) ↔ (
    ((verbatim ≡ verbatim)
      × (any_too_long matcher call.evidence ≡ false)
      × (any (overlaps matcher "found") [] ≡ true))
    ⊎ ((verbatim ≡ extract) × (call.evidence.schema_ok ≡ some true)))
delta_zero_iff_example = delta_zero_iff matcher verbatim call.evidence
