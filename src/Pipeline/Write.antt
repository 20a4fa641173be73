-- ===== src/Pipeline/Write.antt =====
-- core/pipeline.py: `WritePipeline.write`. The crypto engine, the signer and the memory store are
-- the services that the pipeline is given, and may raise; the calls of the provenance store and of
-- `audit.log` are kept in order. The identifier drawn at random comes with the request. The texts of
-- the side effects are left out.
use trustmem.Prelude.{
  String, Bool, true, false, ◌&&◌, Option, none, some, List, [], ◌∷◌, ◌++◌, map, nonempty, str_eq,
  if◌then◌else◌, ℕ,
}
use trustmem.Result.{Error, type_error, Result, ok, raise}
use trustmem.Labels.{MemoryLabel, MemoryType, Trust, t1_low, active}
use trustmem.Labels.Lattice.{min_trust}
use trustmem.Topology.{Networkx}
use trustmem.Scope.{TaskScope, contains_c, contains_t}
use trustmem.Session.{Session}
use trustmem.Decay.{Matcher, DecayResult}
use trustmem.Verdict.{
  deny, Denial, by_rule, task_scope_c, task_scope_t, scope_commit_mismatch, write as write_action,
  Decision, allowed,
}
use trustmem.Pdp.Hard.{Pdp}
use trustmem.Pdp.Write.{WriteCall, can_write}
use trustmem.Audit.{MerkleStore}
use trustmem.Pipeline.Read.{scope_mismatch}

-- The engine's encryption, with its bytes, the optional signer, and the exception of a call of the
-- store's `put`, if it raises one. An older store takes no ciphertext, and raises a `TypeError`.
pub record WriteServices : Type 1 where
  pub Ciphertext : Type 0
  pub Signature : Type 0
  pub encrypt_memory : String → MemoryLabel → Result Ciphertext
  pub sign : Option (MemoryLabel → Ciphertext → Result Signature)
  pub put_error : MemoryLabel → Option Ciphertext → Option Error

pub record WriteRequest : Type 0 where
  pub content : String
  pub call : WriteCall
  pub memory_type : MemoryType
  pub task_binding : Option String
  pub collab_group : Option (List String)
  pub ttl_end : Option ℕ
  pub scope : TaskScope
  pub anchor : Option MerkleStore
  pub chunk_id : String

module _ (sv : WriteServices) where
  pub record Stored : Type 0 where
    pub label : MemoryLabel
    pub ciphertext : Option sv.Ciphertext

  -- What the store, the signer, the provenance store and the log were given, in order.
  pub record WriteWorld : Type 0 where
    pub memories : List Stored
    pub signatures : List (String × sv.Signature)
    pub links : List (String × String)
    pub audit : List Decision

  pub record WriteResult : Type 0 where
    pub allowed : Bool
    pub decision : Decision
    pub decay : Option DecayResult
    pub memory : Option MemoryLabel
    pub denied_by : Option Denial

-- `x or y` for a set that may be absent.
unfoldable pub or_group : Option (List String) → List String → List String
or_group none ys = ys
or_group (some xs) ys = if nonempty xs then xs else ys

-- `task_binding or session.task_id`
unfoldable pub task_of : WriteRequest → Session → String
task_of q sess = elim q.task_binding [
  | none ↦ sess.task_id
  | some t ↦ if str_eq t "" then sess.task_id else t
]

-- The label of the new memory, clamped to T1 after a look-up in the session.
unfoldable pub new_label : WriteRequest → Session → Trust → MemoryLabel
unfolding or_group task_of
new_label q sess trust_out = record {
  chunk_id = q.chunk_id;
  sensitivity = q.call.target_sensitivity;
  provenance_trust = if nonempty sess.consulted then min_trust trust_out t1_low else trust_out;
  layer = q.call.target_layer;
  memory_type = q.memory_type;
  owner_agent = q.call.agent.agent_id;
  task_binding = task_of q sess;
  collab_group = or_group q.collab_group q.call.agent.collab_group;
  provenance_chain = map (λ m. m.chunk_id) q.call.input_mems;
  lifecycle = active;
  epoch = q.call.agent.epoch;
  declassified = q.call.declassify_approved;
  ttl_end = q.ttl_end;
  upgraded_from = none;
  derived_from_consult = nonempty sess.consulted;
}

-- A denial made before the policy is asked.
unfoldable pub early_deny : WriteRequest → Session → Decision
unfolding task_of
early_deny q sess = record {
  verdict = deny;
  action = write_action;
  subject = q.call.agent.agent_id;
  object = task_of q sess;
  checks = [];
  denied_by = some scope_commit_mismatch;
  session_id = "";
  hideable = true;
  pending_absorb = none;
}

-- What the policy is asked: the texts of the inputs are their identifiers where none are given, and
-- the output is the content.
unfoldable pub call_of : WriteRequest → WriteCall
call_of q = record q.call {
  evidence = record q.call.evidence {
    input_texts =
        if nonempty q.call.evidence.input_texts
        then q.call.evidence.input_texts
        else map (λ m. m.chunk_id) q.call.input_mems;
    output_text = q.content;
  };
}

-- Step 2: the decision after the test of the scope.
unfoldable pub scope_checked : WriteRequest → Decision → DecayResult → Decision
scope_checked q d decay =
    let ok_c = contains_c q.scope q.call.target_sensitivity in
    let ok_t = contains_t q.scope decay.trust_out in
    if allowed d
    then (if ok_c && ok_t then d else record d {
      verdict = deny;
      denied_by = some (by_rule (if ok_c then task_scope_t else task_scope_c));
    })
    else d

module _ (sv : WriteServices) where
  -- Step 5.5: the signer keeps what it signed, by the chunk.
  unfoldable pub sign_memory :
      MemoryLabel → sv.Ciphertext → WriteWorld sv → WriteWorld sv × Result (Unit {0})
  sign_memory mem ct w = elim sv.sign [
    | none ↦ (w, ok tt)
    | some signer ↦ elim (signer mem ct) [
      | raise e ↦ (w, raise e)
      | ok sig ↦ (record w { signatures = w.signatures ++ (mem.chunk_id, sig) ∷ [] }, ok tt)
    ]
  ]

  -- `mem_store.put`
  unfoldable pub put_memory :
      MemoryLabel → Option sv.Ciphertext → WriteWorld sv → WriteWorld sv × Result (Unit {0})
  put_memory mem ct w = elim (sv.put_error mem ct) [
    | some e ↦ (w, raise e)
    | none ↦
        (record w { memories = w.memories ++ record { label = mem; ciphertext = ct } ∷ [] }, ok tt)
  ]

  -- `except TypeError`: any other exception goes on.
  abbrev or_label :
      MemoryLabel → WriteWorld sv → Result (Unit {0}) → WriteWorld sv × Result (Unit {0})
  or_label mem w (ok u) = (w, ok u)
  or_label mem w (raise type_error) = put_memory mem none w
  or_label mem w (raise e) = (w, raise e)

  -- Step 6: where the store takes no ciphertext, the label alone.
  unfoldable pub store_memory :
      MemoryLabel → sv.Ciphertext → WriteWorld sv → WriteWorld sv × Result (Unit {0})
  unfolding put_memory
  store_memory mem ct w = let (w', stored) = put_memory mem (some ct) w in or_label mem w' stored

  -- Steps 7 and 8: the links and the log.
  unfoldable pub conclude :
      WriteRequest
      → Decision
      → DecayResult
      → MemoryLabel
      → WriteWorld sv
      → WriteWorld sv × WriteResult sv
  conclude q d decay mem w = (
    record w {
      links = w.links ++ map (λ m. (q.chunk_id, m.chunk_id)) q.call.input_mems;
      audit = w.audit ++ d ∷ [];
    },
    record {
      allowed = true;
      decision = d;
      decay = some decay;
      memory = some mem;
      denied_by = none;
    },
  )

  abbrev pub after_store :
      WriteRequest
      → Decision
      → DecayResult
      → MemoryLabel
      → WriteWorld sv × Result (Unit {0})
      → WriteWorld sv × Result (WriteResult sv)
  after_store q d decay mem (w, raise e) = (w, raise e)
  after_store q d decay mem (w, ok u) =
      let (w', result) = conclude q d decay mem w in (w', ok result)

  abbrev pub after_sign :
      WriteRequest
      → Decision
      → DecayResult
      → MemoryLabel
      → sv.Ciphertext
      → WriteWorld sv × Result (Unit {0})
      → WriteWorld sv × Result (WriteResult sv)
  after_sign q d decay mem ct (w, raise e) = (w, raise e)
  after_sign q d decay mem ct (w, ok u) = after_store q d decay mem (store_memory mem ct w)

  -- Steps 4 to 8. An exception ends the write where it is raised, and nothing is undone.
  unfoldable pub persist :
      WriteRequest
      → Session
      → Decision
      → DecayResult
      → WriteWorld sv
      → WriteWorld sv × Result (WriteResult sv)
  unfolding conclude store_memory sign_memory
  persist q sess d decay w =
      let mem = new_label q sess decay.trust_out in
      elim (sv.encrypt_memory q.content mem) [
        | raise e ↦ (w, raise e)
        | ok ct ↦ after_sign q d decay mem ct (sign_memory mem ct w)
      ]

  -- The result of a write that is refused.
  abbrev pub refusal : Decision → Option DecayResult → Option Denial → WriteResult sv
  refusal d decay why = record {
    allowed = false;
    decision = d;
    decay = decay;
    memory = none;
    denied_by = why;
  }

  unfoldable pub write :
      (nx : Networkx)
      → Matcher
      → Pdp nx
      → WriteRequest
      → Session
      → WriteWorld sv
      → WriteWorld sv × Result (WriteResult sv)
  write nx m pdp q sess w =
      let p = can_write nx m pdp (call_of q) sess in
      let d = scope_checked q p.0 p.1 in
      if scope_mismatch (some q.scope) q.anchor
      then (
        record w { audit = w.audit ++ early_deny q sess ∷ [] },
        ok (refusal (early_deny q sess) none (some scope_commit_mismatch)),
      )
      else if allowed d
      then persist q sess d p.1 w
      else (record w { audit = w.audit ++ d ∷ [] }, ok (refusal d (some p.1) d.denied_by))

  -- Calls of `write` by a caller that goes on after an error, each with the session as it is then.
  unfoldable pub write_all :
      (nx : Networkx)
      → Matcher
      → Pdp nx
      → List (WriteRequest × Session)
      → WriteWorld sv
      → WriteWorld sv × List (Result (WriteResult sv))
  unfolding write
  write_all nx m pdp [] w = (w, [])
  write_all nx m pdp ((q, sess) ∷ qs) w =
      let (w', r) = write nx m pdp q sess w in
      let (w'', rs) = write_all nx m pdp qs w' in (w'', r ∷ rs)
