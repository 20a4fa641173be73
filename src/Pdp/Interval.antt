-- ===== src/Pdp/Interval.antt =====
-- Reads in a scope: the four verdicts, what they leave alone, and that a session whose reads are
-- committed never leaves the scope.
use trustmem.Prelude.{
  ℕ, ◌≤◌, ◌<◌, ◌≡◌, ◌↔◌, ◌⊎◌, refl, String, Bool, true, false, Option, some, List, [], ◌∷◌, ◌&&◌,
  ◌||◌, arith, contains, contains-add, str_eq, false_iff, not_both, inl, inr, if◌then◌else◌,
}
use trustmem.Labels.{AgentLabel, MemoryLabel, consult}
use trustmem.Labels.Lattice.{
  clearance_level, trust_level, clearance_level-max_clearance, trust_level-min_trust, clearance_leb,
  trust_leb,
}
use trustmem.Topology.{Networkx}
use trustmem.Scope.{TaskScope}
use trustmem.Session.{Session, absorb, full, control_after}
use trustmem.Session
use trustmem.Verdict.{
  allow, hide, Denial, ingest_mode_consult, Check, Decision, first_failed, all_passed,
}
use trustmem.Pdp.Hard.{Pdp, hard_checks}
use trustmem.Pdp.Read.{would_c, would_t, consults, can_read_scoped}
use trustmem.Pdp.Confidentiality.{Cleared, all_passed-hard_checks_iff}
use trustmem.Pep.{commit}

-- The levels that the session would have after the read lie in the scope.
abbrev pub InInterval : Session → MemoryLabel → TaskScope → Type 0
InInterval sess mem scope =
    (clearance_level sess.c_eff ≤ clearance_level scope.c_ctx_max)
    × (clearance_level mem.sensitivity ≤ clearance_level scope.c_ctx_max)
    × (trust_level scope.t_ctx_min ≤ trust_level sess.t_eff_ctl)
    × (trust_level scope.t_ctx_min ≤ trust_level mem.provenance_trust)

-- The session is in the scope: the data it saw is at most the scope's highest level, and its
-- control flow is at least of the scope's lowest trust.
abbrev pub InScope : TaskScope → Session → Type 0
InScope scope s =
    (clearance_level s.c_eff ≤ clearance_level scope.c_ctx_max)
    × (trust_level scope.t_ctx_min ≤ trust_level s.t_eff_ctl)

-- The memory is only to be looked up: by the mode of the scope, or by its trust.
abbrev pub IsConsulted : MemoryLabel → TaskScope → Type 0
IsConsulted mem scope =
    (scope.ingest ≡ consult) ⊎ (trust_level mem.provenance_trust < trust_level scope.consult_below)

-- The denial that goes with a memory that is only to be looked up.
abbrev pub looked_up : Option Denial → Bool
looked_up (some ingest_mode_consult) = true
looked_up d = false

first_failed-looked_up : (ck : List Check) → looked_up (first_failed ck) ≡ false
unfolding first_failed
first_failed-looked_up [] = refl
first_failed-looked_up (c ∷ ck) = ground (arith, first_failed-looked_up ck)

consults_iff :
    (mem : MemoryLabel) (scope : TaskScope) → (consults scope mem ≡ true) ↔ IsConsulted mem scope
unfolding consults
consults_iff mem scope = ground arith

module _ (sess : Session) (mem : MemoryLabel) (scope : TaskScope) where
  abbrev ok_c : Bool
  ok_c = clearance_leb (would_c sess mem) scope.c_ctx_max

  abbrev ok_t : Bool
  ok_t = trust_leb scope.t_ctx_min (would_t sess mem)

  interval_iff : ((ok_c ≡ true) × (ok_t ≡ true)) ↔ InInterval sess mem scope
  unfolding would_c would_t
  interval_iff = ground (
    arith,
    clearance_level-max_clearance sess.c_eff mem.sensitivity,
    trust_level-min_trust sess.t_eff_ctl mem.provenance_trust,
  )

  module _ (nx : Networkx) (pdp : Pdp nx) (agent : AgentLabel) (now : ℕ) (epoch_current : Option ℕ)
      (guarded : pdp.bypass_all ≡ false) where
    abbrev passes : Bool
    passes = all_passed (hard_checks nx pdp.topo agent mem now epoch_current)

    abbrev scoped : Decision × Session
    scoped = can_read_scoped nx pdp agent mem sess scope now epoch_current

    verdict-allow :
        (scoped.0.verdict ≡ allow)
        ↔ ((passes ≡ true) × (consults scope mem ≡ false) × (ok_c ≡ true) × (ok_t ≡ true))
    unfolding can_read_scoped
    verdict-allow = ground (arith, guarded)

    verdict-hide :
        pdp.hide_enabled ≡ true
        → (scoped.0.verdict ≡ hide)
          ↔ ((passes ≡ true) × ((consults scope mem ≡ true) ⊎ ((ok_c ≡ false) ⊎ (ok_t ≡ false))))
    unfolding can_read_scoped
    verdict-hide h = ground (arith, guarded)

    -- Without its record of consulted chunks, the session is the one before.
    neutral :
        scoped.1
        ≡ (if passes && consults scope mem then Session.consult sess mem.chunk_id else sess)
    unfolding can_read_scoped
    neutral = ground (arith, guarded)

module _ (nx : Networkx) (pdp : Pdp nx) (agent : AgentLabel) (mem : MemoryLabel) (sess : Session)
    (scope : TaskScope) (now : ℕ) (epoch_current : Option ℕ)
    (guarded : pdp.bypass_all ≡ false) where
  abbrev result : Decision × Session
  result = can_read_scoped nx pdp agent mem sess scope now epoch_current

  abbrev IsCleared : Type 0
  IsCleared = Cleared nx pdp.topo agent mem now epoch_current

  -- With the protection on, a read in a scope is allowed exactly when the six conditions hold, the
  -- memory is not only to be looked up, and the levels after the read would lie in the scope.
  pub can_read_scoped-allow_iff :
      (result.0.verdict ≡ allow)
      ↔ (IsCleared × (¬ IsConsulted mem scope) × InInterval sess mem scope)
  can_read_scoped-allow_iff =
      let a = verdict-allow sess mem scope nx pdp agent now epoch_current guarded in
      let hard = all_passed-hard_checks_iff nx pdp.topo agent mem now epoch_current in
      let seen = consults_iff mem scope in
      let within = interval_iff sess mem scope in
      (
        λ h. let k = a.0 h in (hard.0 k.0, (false_iff seen).0 k.1, within.0 (k.2, k.3)),
        λ h. a.1 (hard.1 h.0, (false_iff seen).1 h.1, (within.1 h.2).0, (within.1 h.2).1),
      )

  -- With the protection on and HIDE enabled, a read in a scope is hidden exactly when the six
  -- conditions hold, and the memory is only to be looked up or the levels after the read would
  -- leave the scope.
  pub can_read_scoped-hide_iff :
      pdp.hide_enabled ≡ true
      → (result.0.verdict ≡ hide)
        ↔ (IsCleared × (IsConsulted mem scope ⊎ (¬ InInterval sess mem scope)))
  can_read_scoped-hide_iff e =
      let b = verdict-hide sess mem scope nx pdp agent now epoch_current guarded e in
      let hard = all_passed-hard_checks_iff nx pdp.topo agent mem now epoch_current in
      (λ h. let k = b.0 h in (hard.0 k.0, outside k.1), λ h. b.1 (hard.1 h.0, inside h.1))
    where
      outside :
          (consults scope mem ≡ true)
            ⊎ ((ok_c sess mem scope ≡ false) ⊎ (ok_t sess mem scope ≡ false))
          → IsConsulted mem scope ⊎ (¬ InInterval sess mem scope)
      outside (inl h) = inl ((consults_iff mem scope).0 h)
      outside (inr (inl h)) = inr (λ i. cc (h, ((interval_iff sess mem scope).1 i).0))
      outside (inr (inr h)) = inr (λ i. cc (h, ((interval_iff sess mem scope).1 i).1))

      inside :
          IsConsulted mem scope ⊎ (¬ InInterval sess mem scope)
          → (consults scope mem ≡ true)
            ⊎ ((ok_c sess mem scope ≡ false) ⊎ (ok_t sess mem scope ≡ false))
      inside (inl h) = inl ((consults_iff mem scope).1 h)
      inside (inr n) = inr (not_both _ _ (interval_iff sess mem scope) n)

  -- A read never moves a level: the session that comes back differs at most by the chunk that is
  -- recorded as looked up, and that record is made exactly under the verdict on looking up.
  pub can_read_scoped_neutral :
      (result.1 ≡ record sess { consulted = result.1.consulted })
      × ((c : String)
          → contains c result.1.consulted ≡ (
              (str_eq mem.chunk_id c && looked_up result.0.denied_by) || contains c sess.consulted))
  unfolding can_read_scoped Session.consult
  can_read_scoped_neutral =
      let hard = hard_checks nx pdp.topo agent mem now epoch_current in
      (
        ground (arith, guarded),
        λ c. ground (
          arith,
          guarded,
          first_failed-looked_up hard,
          contains-add mem.chunk_id c sess.consulted,
        ),
      )

  -- With the protection on, committing the decision of a read in a scope, absorbing or not, keeps a
  -- session that is in the scope in the scope.
  pub commit-InScope :
      (absorbs : Bool) → InScope scope sess → InScope scope (commit result.1 result.0 absorbs)
  unfolding can_read_scoped commit would_c would_t absorb Session.consult
  commit-InScope absorbs h = ground (arith, guarded)

  -- With the protection on, a session that absorbs an allowed read is in the scope, wherever it was
  -- before.
  pub commit_allowed-InScope :
      result.0.verdict ≡ allow → InScope scope (commit result.1 result.0 true)
  unfolding can_read_scoped commit would_c would_t absorb Session.consult
  commit_allowed-InScope h = ground (arith, guarded)
