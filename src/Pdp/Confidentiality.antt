-- ===== src/Pdp/Confidentiality.antt =====
-- Who may read what: the six conditions that no mode lifts, and the visibility of the layers.
use mathlib.Core.Option.{get_or}
use trustmem.Prelude.{
  ℕ, refl, Bool-cases, sym, ◌∙◌, ◌≤◌, ◌≡◌, ◌↔◌, ◌⊎◌, Bool, true, false, Option, arith, ◌||◌,
  contains, intersects, nonempty, str_eq_iff, inl, inr,
}
use trustmem.Labels.{
  AgentLabel, MemoryLabel, Role, auditor, Layer, directive, conclusion, reasoning, active,
  agent_in_ttl, memory_in_ttl,
}
use trustmem.Labels.Lattice.{clearance_level}
use trustmem.Topology.{Networkx, Topology, is_ancestor_of, is_ancestor_of-is_descendant_of}
use trustmem.Scope.{TaskScope}
use trustmem.Session.{Session}
use trustmem.Verdict.{all_passed, allow, deny}
use trustmem.Pdp.Hard.{Pdp, is_auditor, layer_rule, layer_readable, ok_need_to_know, hard_checks}
use trustmem.Pdp.Read.{can_read, can_read_scoped}

or₃_iff :
    {P Q R : Type 0} {a b c : Bool}
    → (a ≡ true) ↔ P
    → (b ≡ true) ↔ Q
    → (c ≡ true) ↔ R
    → ((a || b || c) ≡ true) ↔ (P ⊎ (Q ⊎ R))
or₃_iff {a = true} f g h = (λ _. inl (f.0 refl), λ _. refl)
or₃_iff {a = false} {b = true} f g h = (λ _. inr (inl (g.0 refl)), λ _. refl)
or₃_iff {a = false} {b = false} f g h = (
  λ e. inr (inr (h.0 e)),
  elim [ inl p ↦ absurd (cc (f.1 p)) | inr (inl q) ↦ absurd (cc (g.1 q)) | inr (inr r) ↦ h.1 r ],
)

module _ (nx : Networkx) (topo : Topology nx) (agent : AgentLabel) (mem : MemoryLabel) where
  -- Who sees which layer, written out by layer.
  abbrev pub LayerVisible : Layer → Type 0
  LayerVisible directive = is_ancestor_of nx topo mem.owner_agent agent.agent_id ≡ true
  LayerVisible conclusion =
      (intersects agent.collab_group mem.collab_group ≡ true)
      ⊎ (is_ancestor_of nx topo agent.agent_id mem.owner_agent ≡ true)
  LayerVisible reasoning = is_ancestor_of nx topo agent.agent_id mem.owner_agent ≡ true

  -- The owner, an auditor, or whoever sees the layer.
  abbrev pub Visible : Type 0
  Visible = (agent.agent_id ≡ mem.owner_agent) ⊎ ((agent.role ≡ auditor) ⊎ LayerVisible mem.layer)

  layer_rule_iff : (l : Layer) → (layer_rule nx topo l agent mem ≡ true) ↔ LayerVisible l
  unfolding layer_rule
  layer_rule_iff directive =
      let e = is_ancestor_of-is_descendant_of nx topo mem.owner_agent agent.agent_id in
      (λ h. e ∙ h, λ h. sym e ∙ h)
  layer_rule_iff conclusion = ground arith
  layer_rule_iff reasoning = (λ h. h, λ h. h)

  role_iff : (r : Role) → (is_auditor r ≡ true) ↔ (r ≡ auditor)
  role_iff auditor = ground arith
  role_iff _ = ground arith

  -- A memory is readable by layer exactly by its owner, by an auditor, and by whoever its layer is
  -- open to: a directive to those below the owner, a conclusion to the owner's group and those
  -- above, reasoning to those above alone.
  pub layer_readable_iff : (layer_readable nx topo agent mem ≡ true) ↔ Visible
  unfolding layer_readable
  layer_readable_iff =
      or₃_iff (str_eq_iff agent.agent_id mem.owner_agent) (role_iff agent.role)
        (layer_rule_iff mem.layer)

  pub record Cleared (now : ℕ) (epoch_current : Option ℕ) : Type 0 where
    pub no_read_up : clearance_level mem.sensitivity ≤ clearance_level agent.clearance
    pub task : contains mem.task_binding agent.task_domain ≡ true
    pub group :
        (nonempty mem.collab_group ≡ false)
        ⊎ (intersects agent.collab_group mem.collab_group ≡ true)
    pub visible : Visible
    pub agent_ttl : agent_in_ttl agent now ≡ true
    pub memory_ttl : memory_in_ttl mem now ≡ true
    pub current : get_or epoch_current mem.epoch ≤ agent.epoch
    pub in_force : mem.lifecycle ≡ active

  module _ (now : ℕ) (epoch_current : Option ℕ) where
    passes→Cleared :
        all_passed (hard_checks nx topo agent mem now epoch_current) ≡ true
        → Cleared now epoch_current
    unfolding hard_checks ok_need_to_know
    passes→Cleared h = record {
      no_read_up = ground arith;
      task = ground arith;
      group = ground arith;
      visible = layer_readable_iff.0 (ground arith);
      agent_ttl = ground arith;
      memory_ttl = ground arith;
      current = ground arith;
      in_force = ground arith;
    }

    Cleared→passes :
        Cleared now epoch_current
        → all_passed (hard_checks nx topo agent mem now epoch_current) ≡ true
    unfolding hard_checks ok_need_to_know
    Cleared→passes c = ground (
      arith,
      c.no_read_up,
      c.task,
      c.group,
      layer_readable_iff.1 c.visible,
      c.agent_ttl,
      c.memory_ttl,
      c.current,
      c.in_force,
    )

    pub all_passed-hard_checks_iff :
        (all_passed (hard_checks nx topo agent mem now epoch_current) ≡ true)
        ↔ Cleared now epoch_current
    all_passed-hard_checks_iff = (passes→Cleared, Cleared→passes)

module _ (nx : Networkx) (pdp : Pdp nx) (agent : AgentLabel) (mem : MemoryLabel) (sess : Session)
    (now : ℕ) (epoch_current : Option ℕ) (guarded : pdp.bypass_all ≡ false) where
  abbrev IsCleared : Type 0
  IsCleared = Cleared nx pdp.topo agent mem now epoch_current

  -- With the protection on, a read is allowed exactly when the six conditions hold, and denied
  -- exactly when one fails.
  pub can_read-allow_iff :
      (((can_read nx pdp agent mem sess now epoch_current).verdict ≡ allow) ↔ IsCleared)
      × (((can_read nx pdp agent mem sess now epoch_current).verdict ≡ deny) ↔ (¬ IsCleared))
  unfolding can_read
  can_read-allow_iff =
      let iff = all_passed-hard_checks_iff nx pdp.topo agent mem now epoch_current in
      elim (Bool-cases (all_passed (hard_checks nx pdp.topo agent mem now epoch_current))) [
        | inl good ↦
            rw (guarded, good)
              ((λ _. iff.0 good, λ _. refl), (λ e. absurd (cc e), λ n. absurd (n (iff.0 good))))
        | inr bad ↦
            rw (guarded, bad)
              (
                (λ e. absurd (cc e), λ c. absurd (cc (iff.1 c))),
                (λ _ c. absurd (cc (iff.1 c)), λ _. refl),
              )
      ]

  -- A read in a scope is denied wherever the unscoped read is, whatever the scope and its ingest
  -- mode: a failed condition is never turned into HIDE.
  pub can_read_scoped-deny :
      (scope : TaskScope)
      → ¬ IsCleared
      → ((can_read_scoped nx pdp agent mem sess scope now epoch_current).0.verdict ≡ deny)
        × ((can_read_scoped nx pdp agent mem sess scope now epoch_current).1 ≡ sess)
  unfolding can_read_scoped
  can_read_scoped-deny scope n =
      let iff = all_passed-hard_checks_iff nx pdp.topo agent mem now epoch_current in
      elim (Bool-cases (all_passed (hard_checks nx pdp.topo agent mem now epoch_current))) [
        | inl good ↦ absurd (n (iff.0 good))
        | inr bad ↦ rw (guarded, bad) (refl, refl)
      ]
