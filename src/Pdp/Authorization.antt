-- ===== src/Pdp/Authorization.antt =====
-- Which tool calls go through.
use trustmem.Prelude.{
  ◌≤◌, ◌≡◌, ◌≢◌, ◌↔◌, ◌⊎◌, refl, true, false, List, [], ◌∷◌, ◌&&◌, ◌||◌, arith, contains, nonempty,
  Bool-cases, inl, inr, All, any, not, leb→le, le→leb, and_left, and_right, and_intro, All-empty,
  if◌then◌else◌, all-append,
}
use trustmem.Labels.{MemoryLabel, Clearance, Trust, egress_tools}
use trustmem.Labels.Lattice.{
  clearance_level, trust_level, trust_leb, clearance_leb, meet_trust, trusts, trust_level-le,
  clearance_level-max_clearance, trust_level-min_trust,
}
use trustmem.Topology.{Networkx}
use trustmem.Session.{Session, has_hitl}
use trustmem.Capability.{dangerous_level, system_level, capability_level}
use trustmem.Verdict.{
  Verdict, allow, confirm, hide, Check, all_passed, flow_egress_args, human_in_the_loop,
}
use trustmem.Pdp.Hard.{Pdp, check}
use trustmem.Pdp.Invoke.{
  InvokeCall, required_trust, egress_readers_of, max_sensitivity, provenance_checks, egress_checks,
  hard_invoke_checks, is_dangerous, can_invoke,
}

-- Every memory that the call rests on is trusted enough, and none comes from a lookup.
abbrev pub TrustedProvenance : InvokeCall → Type 0
TrustedProvenance c =
    All
      (λ x.
        (trust_level (required_trust c.tool) ≤ trust_level x.provenance_trust)
        × (x.derived_from_consult ≡ false))
      c.provenance

-- The tool reaches nobody outside, or what the session has read, and every argument, may be read
-- by those whom it reaches.
abbrev pub NoLeak : InvokeCall → Session → Type 0
NoLeak c sess =
    (contains c.tool egress_tools ≡ false)
    ⊎ ((clearance_level sess.c_eff ≤ clearance_level (egress_readers_of c.tool))
        × All (λ x. clearance_level x.sensitivity ≤ clearance_level (egress_readers_of c.tool))
            c.arg_labels)

trusted_iff :
    (r : Trust) (xs : List MemoryLabel)
    → ((trust_leb r (meet_trust (trusts xs)) && not (any (λ x. x.derived_from_consult) xs)) ≡ true)
      ↔ All
          (λ x. (trust_level r ≤ trust_level x.provenance_trust) × (x.derived_from_consult ≡ false))
          xs
unfolding meet_trust trust_level
trusted_iff r [] = (λ _. tt, λ _. ground (arith, trust_level-le r))
trusted_iff r (x ∷ xs) =
    let ih = trusted_iff r xs in
    let e = trust_level-min_trust x.provenance_trust (meet_trust (trusts xs)) in
    (
      λ h. ((ground (arith, e), ground arith), ih.0 (ground (arith, e))),
      λ h. ground (arith, e, h.0.0, h.0.1, ih.1 h.1),
    )

provenance_iff : (c : InvokeCall) → (all_passed (provenance_checks c) ≡ true) ↔ TrustedProvenance c
unfolding provenance_checks
provenance_iff c = elim (Bool-cases (nonempty c.provenance)) [
  | inl some_given ↦
      let iff = trusted_iff (required_trust c.tool) c.provenance in
      rw some_given (λ h. iff.0 (ground arith), λ h. ground (arith, iff.1 h))
  | inr none_given ↦ rw none_given (λ _. All-empty _ c.provenance none_given, λ _. refl)
]

max_iff :
    (r : Clearance) (xs : List MemoryLabel)
    → (clearance_level (max_sensitivity xs) ≤ clearance_level r)
      ↔ All (λ x. clearance_level x.sensitivity ≤ clearance_level r) xs
unfolding max_sensitivity clearance_level
max_iff r [] = (λ _. tt, λ _. omega arith)
max_iff r (x ∷ xs) =
    let ih = max_iff r xs in
    let e = clearance_level-max_clearance x.sensitivity (max_sensitivity xs) in
    (
      λ h. (omega (arith, e), ih.0 (omega (arith, e))),
      λ h. let k = ih.1 h.1 in omega (arith, e, k, h.0),
    )

args_iff :
    (r : Clearance) (xs : List MemoryLabel)
    → (all_passed (
          if nonempty xs
          then check flow_egress_args (clearance_leb (max_sensitivity xs) r) ∷ []
          else [])
        ≡ true)
      ↔ All (λ x. clearance_level x.sensitivity ≤ clearance_level r) xs
args_iff r [] = (λ _. tt, λ _. refl)
args_iff r (x ∷ xs) =
    let iff = max_iff r (x ∷ xs) in
    (λ h. iff.0 (ground arith), λ h. let k = iff.1 h in ground arith)

egress_iff :
    (c : InvokeCall) (sess : Session) → (all_passed (egress_checks c sess) ≡ true) ↔ NoLeak c sess
unfolding egress_checks
egress_iff c sess = elim (Bool-cases (contains c.tool egress_tools)) [
  | inl out ↦
      let iff = args_iff (egress_readers_of c.tool) c.arg_labels in
      rw out (
        λ h. inr (leb→le _ _ (and_left _ _ h), iff.0 (and_right _ _ h)),
        λ h. elim h [ inl e ↦ absurd (cc e) | inr k ↦ and_intro _ _ (le→leb _ _ k.0) (iff.1 k.1) ],
      )
  | inr inside ↦ rw inside (λ _. inl refl, λ _. refl)
]

-- The tool is in the agent's scope, the control flow is trusted enough for it, and so is what the
-- call rests on, and nothing leaks.
pub record Authorized (c : InvokeCall) (sess : Session) : Type 0 where
  pub in_scope : contains c.tool c.agent.tool_scope ≡ true
  pub control_flow : trust_level (required_trust c.tool) ≤ trust_level sess.t_eff_ctl
  pub provenance : TrustedProvenance c
  pub no_leak : NoLeak c sess

hard_iff :
    (c : InvokeCall) (sess : Session)
    → (all_passed (hard_invoke_checks c sess) ≡ true) ↔ Authorized c sess
unfolding hard_invoke_checks
hard_iff c sess =
    let split = all-append (λ (k : Check). k.passed) (provenance_checks c) (egress_checks c sess) in
    (
      λ h. record {
        in_scope = ground arith;
        control_flow = ground arith;
        provenance = (provenance_iff c).0 (ground (arith, split));
        no_leak = (egress_iff c sess).0 (ground (arith, split));
      },
      λ h. ground (
        arith,
        split,
        h.in_scope,
        h.control_flow,
        (provenance_iff c).1 h.provenance,
        (egress_iff c sess).1 h.no_leak,
      ),
    )

module _ (nx : Networkx) (pdp : Pdp nx) (c : InvokeCall) (sess : Session)
    (guarded : pdp.bypass_all ≡ false) where
  abbrev verdict : Verdict
  verdict = (can_invoke nx pdp c sess).verdict

  -- A dangerous tool has been confirmed by a human.
  abbrev Confirmed : Type 0
  Confirmed =
      (capability_level c.tool ≢ dangerous_level) ⊎ (has_hitl sess c.action_fingerprint ≡ true)

  tests :
      ((verdict ≡ allow) ↔ (
        (capability_level c.tool ≢ system_level)
        × (all_passed (hard_invoke_checks c sess) ≡ true)
        × Confirmed))
      × ((verdict ≡ confirm) ↔ (
          (capability_level c.tool ≡ dangerous_level)
          × (all_passed (hard_invoke_checks c sess) ≡ true)
          × (has_hitl sess c.action_fingerprint ≡ false)))
      × (verdict ≢ hide)
  unfolding can_invoke
  tests =
      let split =
        all-append (λ (k : Check). k.passed) (hard_invoke_checks c sess)
          (check human_in_the_loop
              (not (is_dangerous (capability_level c.tool)) || has_hitl sess c.action_fingerprint)
            ∷ []) in
      (
        ground (arith, guarded, split),
        ground (arith, guarded, split),
        ground (arith, guarded, split),
      )

  -- With the protection on, a call is allowed exactly when its tool is no system capability, the
  -- call is authorized, and a dangerous tool has been confirmed for this very action. It waits for
  -- a confirmation exactly when an authorized call of a dangerous tool has none.
  pub can_invoke_verdict :
      ((verdict ≡ allow)
        ↔ ((capability_level c.tool ≢ system_level) × Authorized c sess × Confirmed))
      × ((verdict ≡ confirm) ↔ (
          (capability_level c.tool ≡ dangerous_level)
          × Authorized c sess
          × (has_hitl sess c.action_fingerprint ≡ false)))
  can_invoke_verdict =
      let hard = hard_iff c sess in
      (
        (λ h. let k = tests.0.0 h in (k.0, hard.0 k.1, k.2), λ h. tests.0.1 (h.0, hard.1 h.1, h.2)),
        (λ h. let k = tests.1.0 h in (k.0, hard.0 k.1, k.2), λ h. tests.1.1 (h.0, hard.1 h.1, h.2)),
      )
