-- ===== src/MemoryProxy/Cleared.antt =====
-- core/agent/memory_proxy.py: what a run of reads through the proxy leaves in the session.
use trustmem.Prelude.{
  ℕ, ◌≤◌, ◌≡◌, String, Bool, false, Option, none, some, List, [], ◌∷◌, arith, refl,
}
use trustmem.Labels.{AgentLabel, MemoryLabel}
use trustmem.Labels.Lattice.{clearance_level, clearance_level-max_clearance}
use trustmem.Scope.{TaskScope, ScopePayload}
use trustmem.Topology.{Networkx}
use trustmem.Session
use trustmem.Session.{Session, absorb}
use trustmem.Pdp.Hard.{Pdp}
use trustmem.Pdp.Read.{can_read_scoped}
use trustmem.Pdp.Interval.{can_read_scoped-allow_iff}
use trustmem.Pep.{commit}
use trustmem.Pipeline.Read.{
  Services, ReadWorld, ReadRequest, logged, decide, act, read_found, batch_request,
  read as read_memory, read_many as read_memories,
}
use trustmem.Pipeline.Reads.{act_session}
use trustmem.MemoryProxy.{read, read_many, or_default}

-- The data that a session saw is at most of the agent's clearance.
abbrev pub IsCleared : AgentLabel → Session → Type 0
IsCleared agent s = clearance_level s.c_eff ≤ clearance_level agent.clearance

module _ (nx : Networkx) (pdp : Pdp nx) (guarded : pdp.bypass_all ≡ false) where
  -- Committing the decision of a read, whatever its scope.
  commit-IsCleared :
      (agent : AgentLabel) (mem : MemoryLabel) (sess : Session) (scope : TaskScope) (now : ℕ)
      (epoch : Option ℕ) (absorbs : Bool)
      → IsCleared agent sess
      → IsCleared agent (
          commit
            (can_read_scoped nx pdp agent mem sess scope now epoch).1
            (can_read_scoped nx pdp agent mem sess scope now epoch).0
            absorbs)
  unfolding can_read_scoped commit absorb Session.consult
  commit-IsCleared agent mem sess scope now epoch absorbs h = ground (
    arith,
    guarded,
    can_read_scoped-allow_iff nx pdp agent mem sess scope now epoch guarded,
    clearance_level-max_clearance sess.c_eff mem.sensitivity,
  )

  module _ (sv : Services) where
    read_memory-IsCleared :
        (scope : TaskScope) (q : ReadRequest) (w : ReadWorld)
        → q.scope ≡ some scope
        → IsCleared q.agent w.session
        → IsCleared q.agent ((read_memory sv nx pdp q w).0.session)
    unfolding trustmem.Pipeline.Read.read read_found logged
    read_memory-IsCleared scope q w h i = ground (arith, found (sv.get q.chunk_id))
      where
        decided :
            (mem : MemoryLabel)
            → decide sv nx pdp q mem w.session
              ≡ can_read_scoped nx pdp q.agent mem w.session scope q.now q.epoch_current
        decided mem = unfold decide in ground (arith, h)

        found :
            (m : Option MemoryLabel) → IsCleared q.agent ((read_found sv nx pdp q w m).0.session)
        found none = i
        found (some mem) =
            let p = decide sv nx pdp q mem w.session in
            rw (act_session sv nx pdp q mem p.0 (record w { session = p.1 }), decided mem)
              (commit-IsCleared q.agent mem w.session scope q.now q.epoch_current q.absorbs i)

    read_memories-IsCleared :
        (agent : AgentLabel) (scope : TaskScope) (now : ℕ) (xs : List (String × String × String))
        (w : ReadWorld)
        → IsCleared agent w.session
        → IsCleared agent ((read_memories sv nx pdp agent scope now xs w).0.session)
    unfolding trustmem.Pipeline.Read.read_many batch_request
    read_memories-IsCleared agent scope now [] w i = i
    read_memories-IsCleared agent scope now (x ∷ xs) w i =
        let q = batch_request sv nx pdp agent scope now x in
        let p = read_memory sv nx pdp q w in
        let j = read_memory-IsCleared scope q w refl i in
        ground (arith, j, read_memories-IsCleared agent scope now xs p.0 j)

-- The reads that an agent makes, one by one or in batches, each with the store as it is then.
pub data Reading : Type 1 where
  one : Services → String → Option TaskScope → Bool → ℕ → String × String → Reading
  batch : Services → List (String × String × String) → Option TaskScope → ℕ → Reading

module _ (digest : ScopePayload → String) (agent : AgentLabel) (nx : Networkx) (pdp : Pdp nx) where
  unfoldable pub run : List Reading → ReadWorld → ReadWorld
  run [] w = w
  run (one sv chunk_id scope absorbs now drawn ∷ readings) w =
      run readings ((read digest agent nx pdp sv chunk_id scope absorbs now drawn w).0)
  run (batch sv chunks scope now ∷ readings) w =
      run readings ((read_many digest agent nx pdp sv chunks scope now w).0)

  -- With the protection on, whatever an agent reads through its proxy, in whatever scopes and while
  -- the store changes in between, its session never holds data above the agent's clearance.
  pub run-IsCleared :
      pdp.bypass_all ≡ false
      → (readings : List Reading) (w : ReadWorld) → IsCleared agent w.session
      → IsCleared agent ((run readings w).session)
  unfolding run read read_many
  run-IsCleared guarded [] w i = i
  run-IsCleared guarded (one sv chunk_id scope absorbs now drawn ∷ readings) w i =
      run-IsCleared guarded readings _ (
        read_memory-IsCleared nx pdp guarded sv (or_default digest agent scope w.session) _ w refl
          i)
  run-IsCleared guarded (batch sv chunks scope now ∷ readings) w i =
      run-IsCleared guarded readings _ (
        read_memories-IsCleared nx pdp guarded sv agent (or_default digest agent scope w.session)
          now chunks w i)
