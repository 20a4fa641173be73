-- ===== src/Pdp/WriteBack.antt =====
-- What a write may do: nothing that was only looked up is written back, nothing goes up in trust or
-- down in confidentiality.
use trustmem.Prelude.{
  ◌+◌, ◌≤◌, ◌≡◌, ◌≢◌, ◌↔◌, ◌⊎◌, refl, String, true, false, some, List, [], ◌∷◌, ◌&&◌, leb→le,
  le→leb, arith, contains, nonempty, All, any,
}
use trustmem.Labels.{MemoryLabel, directive}
use trustmem.Labels.Lattice.{clearance_level, trust_level, trust_leb, clearance_leb}
use trustmem.Topology.{Networkx, children}
use trustmem.Session.{Session, has_hitl}
use trustmem.Decay.{Matcher, DecayResult, compute_trust}
use trustmem.Decay.Laws.{compute_trust-le}
use trustmem.Verdict.{Decision, allow, deny, by_rule, provenance_no_consult}
use trustmem.Pdp.Hard.{Pdp}
use trustmem.Pdp.Write.{
  WriteCall, is_directive, required_for_write, ok_blp_star, consulted_inputs, declassify_fp,
  decay_of, ok_layer_write, can_write,
}

-- A write down is open by at most two levels, or by an approved declassification of a directive
-- that a human has confirmed.
abbrev pub NoWriteDown : WriteCall → Session → Type 0
NoWriteDown w sess =
    (clearance_level w.agent.clearance ≤ clearance_level w.target_sensitivity)
    ⊎ (((w.target_layer ≡ directive)
          × (w.declassify_approved ≡ true)
          × (has_hitl sess (declassify_fp w.agent w.target_sensitivity) ≡ true))
        ⊎ ((is_directive w.target_layer && w.declassify_approved ≡ false)
            × (clearance_level w.agent.clearance ≤ clearance_level w.target_sensitivity + 2)))

ok_blp_star_iff :
    (w : WriteCall) (sess : Session) → (ok_blp_star w sess ≡ true) ↔ NoWriteDown w sess
unfolding ok_blp_star
ok_blp_star_iff w sess = ground arith

none_consulted :
    (xs : List MemoryLabel) (consulted : List String)
    → (any (λ x. contains x.chunk_id consulted) xs ≡ false)
      ↔ All (λ x. contains x.chunk_id consulted ≡ false) xs
none_consulted [] consulted = (λ _. tt, λ _. refl)
none_consulted (x ∷ xs) consulted =
    let ih = none_consulted xs consulted in
    (λ h. (ground arith, ih.0 (ground arith)), λ h. ground (arith, h.0, ih.1 h.1))

required_level : trust_level required_for_write ≡ 1
unfolding required_for_write trust_level
required_level = refl

module _ (nx : Networkx) (m : Matcher) (pdp : Pdp nx) (w : WriteCall) (sess : Session)
    (guarded : pdp.bypass_all ≡ false) where
  abbrev decided : Decision × DecayResult
  decided = can_write nx m pdp w sess

  -- A directive is written only by an agent with someone below it.
  abbrev LayerOpen : Type 0
  LayerOpen =
      (w.target_layer ≢ directive) ⊎ (nonempty (children nx pdp.topo w.agent.agent_id) ≡ true)

  layer_iff : (ok_layer_write nx pdp w ≡ true) ↔ LayerOpen
  unfolding ok_layer_write
  layer_iff = ground arith

  biba : trust_leb (decay_of m w sess).trust_out sess.t_eff ≡ true
  unfolding decay_of
  biba = ground (arith, (compute_trust-le m w.input_mems sess.t_eff w.op w.evidence).0)

  allow_tests : (decided.0.verdict ≡ allow) ↔ (
      (trust_leb required_for_write sess.t_eff_ctl ≡ true)
      × (consulted_inputs w sess ≡ false)
      × (ok_blp_star w sess ≡ true)
      × (clearance_leb sess.c_eff w.target_sensitivity ≡ true)
      × (ok_layer_write nx pdp w ≡ true))
  unfolding can_write
  allow_tests = ground (arith, guarded, biba)

  -- With the protection on, a write is allowed exactly when the control-flow level is at least T1,
  -- no input was only looked up in this session, the target is no forbidden write-down, it is not
  -- below what the session has read, and the layer is open to the writer.
  pub can_write-allow_iff : (decided.0.verdict ≡ allow) ↔ (
      (1 ≤ trust_level sess.t_eff_ctl)
      × All (λ x. contains x.chunk_id sess.consulted ≡ false) w.input_mems
      × NoWriteDown w sess
      × (clearance_level sess.c_eff ≤ clearance_level w.target_sensitivity)
      × LayerOpen)
  can_write-allow_iff = (
    λ h.
        let k = allow_tests.0 h in
        (
          omega (arith, leb→le _ _ k.0, required_level),
          (none_consulted w.input_mems sess.consulted).0 (unfold consulted_inputs in k.1),
          (ok_blp_star_iff w sess).0 k.2,
          leb→le _ _ k.3,
          layer_iff.0 k.4,
        ),
    λ h. allow_tests.1 (
      le→leb _ _ (omega (arith, required_level, h.0)),
      unfold consulted_inputs in (none_consulted w.input_mems sess.consulted).1 h.1,
      (ok_blp_star_iff w sess).1 h.2,
      le→leb _ _ h.3,
      layer_iff.1 h.4,
    ),
  )

  -- The trust that goes with an allowed write is at most the session's data-flow level and at most
  -- that of each input.
  pub can_write_no_write_up :
      decided.0.verdict ≡ allow
      → (trust_level decided.1.trust_out ≤ trust_level sess.t_eff)
        × All (λ x. trust_level decided.1.trust_out ≤ trust_level x.provenance_trust) w.input_mems
  can_write_no_write_up h =
      let le = compute_trust-le m w.input_mems sess.t_eff w.op w.evidence in
      rw decay_is (le.0, le.1)
    where
      decay_is : decided.1 ≡ compute_trust m w.input_mems sess.t_eff w.op w.evidence
      decay_is = unfold can_write in unfold decay_of in ground (arith, guarded)

  -- An input that was only looked up refuses the write for that reason, whatever else holds.
  pub can_write_consulted :
      any (λ x. contains x.chunk_id sess.consulted) w.input_mems ≡ true
      → (decided.0.verdict ≡ deny) × (decided.0.denied_by ≡ some (by_rule provenance_no_consult))
  unfolding can_write consulted_inputs
  can_write_consulted h = ground (arith, guarded)
