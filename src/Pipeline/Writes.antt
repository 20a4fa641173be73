-- ===== src/Pipeline/Writes.antt =====
-- What the write pipeline stores, and what it promises of a stored label.
use trustmem.Prelude.{◌≤◌, ◌≡◌, ◌⊎◌, true, [], All, min}
use trustmem.Result.{Result}
use trustmem.Labels.{MemoryLabel}
use trustmem.Labels.Lattice.{trust_level, clearance_level}
use trustmem.Topology.{Networkx}
use trustmem.Session.{Session}
use trustmem.Decay.{Matcher, DecayResult}
use trustmem.Verdict.{Decision}
use trustmem.Pdp.Hard.{Pdp}
use trustmem.Pdp.Write.{can_write}
use trustmem.Pipeline.Write.{WriteServices, WriteRequest, WriteWorld, WriteResult, call_of, write}

module _ (sv : WriteServices) (nx : Networkx) (m : Matcher) (pdp : Pdp nx) (q : WriteRequest)
    (sess : Session) (w : WriteWorld sv) where
  abbrev decided : Decision × DecayResult
  decided = can_write nx m pdp (call_of q) sess

  abbrev written : WriteWorld sv × Result (WriteResult sv)
  written = write sv nx m pdp q sess w

  -- After a look-up in the session: the label is marked, and trusted at T1 at most and at the
  -- scope's lowest trust or T1 at least. Else it is trusted at least as much as the scope asks.
  abbrev HoldsTrust : MemoryLabel → Type 0
  HoldsTrust mem =
      ((sess.consulted ≡ []) × (trust_level q.scope.t_ctx_min ≤ trust_level mem.provenance_trust))
      ⊎ ((mem.derived_from_consult ≡ true)
          × (trust_level mem.provenance_trust ≤ 1)
          × (min (trust_level q.scope.t_ctx_min) 1 ≤ trust_level mem.provenance_trust))

  abbrev pub IsBounded : MemoryLabel → Type 0
  IsBounded mem =
      (clearance_level mem.sensitivity ≤ clearance_level q.scope.c_ctx_max)
      × (clearance_level sess.c_eff ≤ clearance_level mem.sensitivity)
      × (trust_level mem.provenance_trust ≤ trust_level sess.t_eff)
      × All (λ x. trust_level mem.provenance_trust ≤ trust_level x.provenance_trust)
          q.call.input_mems
      × HoldsTrust mem
