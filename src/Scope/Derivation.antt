-- ===== src/Scope/Derivation.antt =====
-- What `derive_taskscope` computes: the two bounds are the meet over the declared exports and the
-- join over the declared tools.
use trustmem.Prelude.{
  ◌≡◌, ◌≤◌, ◌↔◌, String, true, List, [], ◌∷◌, All, arith, leb→le, le→leb, if◌then◌else◌, nonempty,
}
use trustmem.Labels.{Clearance, Trust, t0_untrusted}
use trustmem.Labels.Lattice.{
  clearance_level, trust_level, clearance_level-le, clearance_level-min_clearance,
  trust_level-max_trust, trust_leb, clearance_leb,
}
use trustmem.Scope.{
  ScopePayload, TaskScope, Declared, either_name, readers_of, declared_trust, least_readers,
  contains_c, contains_t, greatest_required, derive_taskscope, agent_clearance,
}

abbrev pub AtMostReaders : Clearance → List String → Type 0
AtMostReaders c = All (λ e. clearance_level c ≤ clearance_level (readers_of e))

least_readers-meet :
    (c : Clearance) (es : List String)
    → (clearance_level c ≤ clearance_level (least_readers es)) ↔ AtMostReaders c es
unfolding least_readers clearance_level
least_readers-meet c [] = (λ h. tt, λ _. clearance_level-le c)
least_readers-meet c (e ∷ es) =
    let ih = least_readers-meet c es in
    let m = clearance_level-min_clearance (readers_of e) (least_readers es) in
    (
      λ h. (omega (arith, m), ih.0 (omega (arith, m))),
      λ h. let k = ih.1 h.1 in omega (arith, m, k, h.0),
    )

abbrev pub AtLeastRequired : Trust → List String → Type 0
AtLeastRequired t = All (λ e. trust_level (declared_trust e) ≤ trust_level t)

greatest_required-join :
    (t : Trust) (es : List String)
    → (trust_level (greatest_required es) ≤ trust_level t) ↔ AtLeastRequired t es
unfolding greatest_required trust_level
greatest_required-join t [] = (λ h. tt, λ _. omega arith)
greatest_required-join t (e ∷ es) =
    let ih = greatest_required-join t es in
    let m = trust_level-max_trust (declared_trust e) (greatest_required es) in
    (
      λ h. (omega (arith, m), ih.0 (omega (arith, m))),
      λ h. let k = ih.1 h.1 in omega (arith, m, k, h.0),
    )

-- The levels that the declared exports let in. With exports, every export's readers may read the
-- level. With none, the bound is the agent's clearance, or the task's where no agent is given.
abbrev pub EgressAdmits : Declared → Clearance → List String → Type 0
EgressAdmits d c [] =
    clearance_level c ≤ clearance_level (agent_clearance d.agent d.task_max_clearance)
EgressAdmits d c (e ∷ es) = AtMostReaders c (e ∷ es)

module _ (digest : ScopePayload → String) (task_id : String) (d : Declared) where
  abbrev derived : TaskScope
  derived = derive_taskscope digest task_id d

  -- The derived scope admits a level exactly when the declared exports admit it, every one of them,
  -- and a trust exactly when every declared tool's threshold is met.
  pub derive_taskscope_bounds :
      (c : Clearance) (t : Trust)
      → ((contains_c derived c ≡ true)
          ↔ EgressAdmits d c (either_name d.exports d.declared_exports))
        × ((contains_t derived t ≡ true) ↔ AtLeastRequired t (either_name d.tools d.declared_tools))
  unfolding derive_taskscope contains_c contains_t trust_level
  derive_taskscope_bounds c t = (
    admitted (either_name d.exports d.declared_exports),
    required (either_name d.tools d.declared_tools),
  )
    where
      admitted :
          (es : List String)
          → (clearance_leb c (
                if nonempty es
                then least_readers es
                else agent_clearance d.agent d.task_max_clearance)
              ≡ true)
            ↔ EgressAdmits d c es
      admitted [] = (λ k. leb→le _ _ k, λ k. le→leb _ _ k)
      admitted (e ∷ es) = (
        λ k. (least_readers-meet c (e ∷ es)).0 (leb→le _ _ k),
        λ k. le→leb _ _ ((least_readers-meet c (e ∷ es)).1 k),
      )

      required :
          (ts : List String)
          → (trust_leb (if nonempty ts then greatest_required ts else t0_untrusted) t ≡ true)
            ↔ AtLeastRequired t ts
      required [] = (λ h. tt, λ h. le→leb _ _ (omega arith))
      required (e ∷ es) = (
        λ k. (greatest_required-join t (e ∷ es)).0 (leb→le _ _ k),
        λ k. le→leb _ _ ((greatest_required-join t (e ∷ es)).1 k),
      )
