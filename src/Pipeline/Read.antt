-- ===== src/Pipeline/Read.antt =====
-- core/pipeline.py: `ReadPipeline.read` and `read_many`. The memory store, the crypto engine and the
-- verifier are the services that the pipeline is given; the calls of `audit.log` are kept in order.
-- The identifiers that the code draws at random come with the request. The texts of the side
-- effects are left out.
use trustmem.Prelude.{
  ℕ, String, Bool, true, false, not, Option, none, some, List, [], ◌∷◌, ◌++◌, ltb, if◌then◌else◌,
}
use trustmem.Result.{Result, ok, raise, runtime_error}
use trustmem.Labels.{AgentLabel, MemoryLabel, Trust}
use trustmem.Labels.Lattice.{trust_level}
use trustmem.Topology.{Networkx}
use trustmem.Scope.{TaskScope}
use trustmem.Session.{Session}
use trustmem.Verdict.{
  allow, hide, confirm, deny, Denial, scope_commit_mismatch, not_found, signature_invalid,
  hitl_required, unknown, read as read_action, Decision,
}
use trustmem.Pdp.Hard.{Pdp}
use trustmem.Pdp.Read.{can_read, can_read_scoped}
use trustmem.Pep.{commit}
use trustmem.Vars.{bool, enum, number, VarHandle, VarStore, store}
use trustmem.Audit.{MerkleStore}
use trustmem.Audit.ScopeCommit.{verify_scope_against_chain}
use trustmem.Crypto.{CryptoClient, record_allow, mark_decrypted, decrypt}

-- `MemoryStoreProto`, `CryptoEngineProto` and the optional verifier. The engine raises on a ciphertext
-- that it cannot read, and a verifier on a backend that it does not have.
pub record Services : Type 1 where
  pub Ciphertext : Type 0
  pub Plaintext : Type 0
  pub get : String → Option MemoryLabel
  -- A store need not have the method.
  pub get_ciphertext : Option (String → Option Ciphertext)
  pub verify : Option (MemoryLabel → Option Ciphertext → Result Bool)
  pub decrypt_memory : AgentLabel → Option Ciphertext → Result (Option Plaintext × String)

pub record ReadWorld : Type 0 where
  pub session : Session
  pub audit : List Decision
  pub vars : VarStore
  pub client : CryptoClient

pub record ReadRequest : Type 0 where
  pub agent : AgentLabel
  pub chunk_id : String
  pub now : ℕ
  pub epoch_current : Option ℕ
  pub scope : Option TaskScope
  pub anchor : Option MerkleStore
  pub absorbs : Bool
  pub decision_id : String
  pub var_id : String

-- `anchor is not None and scope is not None and not verify_scope_against_chain(scope, anchor)`
unfoldable pub scope_mismatch : Option TaskScope → Option MerkleStore → Bool
scope_mismatch none anchor = false
scope_mismatch (some scope) none = false
scope_mismatch (some scope) (some chain) = not (verify_scope_against_chain scope chain)

-- A denial made before the memory is looked at.
unfoldable pub early_deny : ReadRequest → Denial → Decision
early_deny q why = record {
  verdict = deny;
  action = read_action;
  subject = q.agent.agent_id;
  object = q.chunk_id;
  checks = [];
  denied_by = some why;
  session_id = "";
  hideable = true;
  pending_absorb = none;
}

unfoldable pub logged : ReadWorld → Decision → ReadWorld
logged w d = record w { audit = w.audit ++ d ∷ [] }

-- `decision.denied_by or "HITL-Required"`
abbrev pub or_hitl : Option Denial → Option Denial
or_hitl none = some hitl_required
or_hitl (some why) = some why

-- `decision.denied_by or "Unknown"`, for the reason.
unfoldable pub handle_of : ReadRequest → MemoryLabel → Decision → VarHandle
handle_of q mem d = record {
  var_id = q.var_id;
  chunk_id = q.chunk_id;
  reason = elim d.denied_by [ none ↦ unknown | some why ↦ why ];
  constraint_types = bool ∷ enum ∷ number ∷ [];
  source_trust = mem.provenance_trust;
  sensitivity = mem.sensitivity;
}

module _ (sv : Services) where
  pub record ReadResult : Type 0 where
    pub allowed : Bool
    pub decision : Decision
    pub memory : Option MemoryLabel
    pub plaintext : Option sv.Plaintext
    pub denied_by : Option Denial
    pub var_handle : Option VarHandle
    -- The levels before and after, where the data-flow level dropped.
    pub t_eff_dropped : Option (Trust × Trust)

  abbrev pub refusal : Decision → Option MemoryLabel → Option Denial → ReadResult
  refusal d mem why = record {
    allowed = false;
    decision = d;
    memory = mem;
    plaintext = none;
    denied_by = why;
    var_handle = none;
    t_eff_dropped = none;
  }

  -- `_get_ciphertext`
  unfoldable pub fetch_ciphertext : String → Result (Option sv.Ciphertext)
  fetch_ciphertext chunk_id = elim sv.get_ciphertext [
    | none ↦ ok none
    | some get_ct ↦ elim (get_ct chunk_id) [ none ↦ raise runtime_error | some ct ↦ ok (some ct) ]
  ]

  unfoldable pub signature_ok : MemoryLabel → Option sv.Ciphertext → Result Bool
  signature_ok mem ct = elim sv.verify [ none ↦ ok true | some v ↦ v mem ct ]

  unfoldable pub dropped : Trust → Trust → Option (Trust × Trust)
  dropped before after =
      if ltb (trust_level after) (trust_level before) then some (before, after) else none

  -- The credential, the decryption and the log. An exception of the engine leaves the credential and
  -- the count.
  unfoldable pub unlock :
      ReadRequest
      → MemoryLabel
      → Decision
      → Option (Trust × Trust)
      → ReadWorld
      → Option sv.Ciphertext
      → ReadWorld × Result ReadResult
  unlock q mem d drop w ct =
      let client = record_allow w.client q.decision_id q.chunk_id in
      let (client', opened) = decrypt sv.decrypt_memory client q.agent ct q.decision_id in
      elim opened [
        | raise e ↦ (record w { client = client' }, raise e)
        | ok (plain, reason) ↦ (
          logged (record w { client = mark_decrypted client' q.chunk_id }) d,
          ok record {
            allowed = true;
            decision = d;
            memory = some mem;
            plaintext = plain;
            denied_by = none;
            var_handle = none;
            t_eff_dropped = drop;
          },
        )
      ]

  -- Step 6.5 on: the signature, then the decryption.
  unfoldable pub release :
      ReadRequest
      → MemoryLabel
      → Decision
      → Trust
      → ReadWorld
      → Option sv.Ciphertext
      → ReadWorld × Result ReadResult
  unfolding unlock
  release q mem d before w ct =
      let drop = dropped before w.session.t_eff in
      let d' = record d { verdict = deny; denied_by = some signature_invalid } in
      elim (signature_ok mem ct) [
        | raise e ↦ (w, raise e)
        | ok signed ↦ if signed then unlock q mem d drop w ct else (
          logged w d',
          ok record (refusal d' (some mem) (some signature_invalid)) { t_eff_dropped = drop },
        )
      ]

  -- A missing ciphertext ends the read with an error, after the commit.
  unfoldable pub with_ciphertext :
      ReadRequest
      → MemoryLabel
      → Decision
      → Trust
      → ReadWorld
      → Result (Option sv.Ciphertext)
      → ReadWorld × Result ReadResult
  with_ciphertext q mem d before w (raise e) = (w, raise e)
  with_ciphertext q mem d before w (ok ct) = release q mem d before w ct

  -- Step 6: the levels are committed, then the ciphertext is looked for.
  unfoldable pub read_content :
      ReadRequest → MemoryLabel → Decision → ReadWorld → ReadWorld × Result ReadResult
  read_content q mem d w =
      with_ciphertext q mem d w.session.t_eff (record w { session = commit w.session d q.absorbs })
        (fetch_ciphertext q.chunk_id)

  unfoldable pub hide_content :
      ReadRequest → MemoryLabel → Decision → ReadWorld → ReadWorld × Result ReadResult
  hide_content q mem d w =
      let handle = handle_of q mem d in
      (
        logged (record w { vars = store w.vars handle }) d,
        ok record (refusal d (some mem) none) { var_handle = some handle },
      )

  module _ (nx : Networkx) (pdp : Pdp nx) where
    -- Step 2: the decision, and the session with what was recorded as looked up.
    unfoldable pub decide : ReadRequest → MemoryLabel → Session → Decision × Session
    decide q mem sess = elim q.scope [
      | none ↦ (can_read nx pdp q.agent mem sess q.now q.epoch_current, sess)
      | some scope ↦ can_read_scoped nx pdp q.agent mem sess scope q.now q.epoch_current
    ]

    unfoldable pub act :
        ReadRequest → MemoryLabel → Decision → ReadWorld → ReadWorld × Result ReadResult
    act q mem d w = elim d.verdict [
      | hide ↦ hide_content q mem d w
      | deny ↦ (logged w d, ok (refusal d (some mem) d.denied_by))
      | confirm ↦ (logged w d, ok (refusal d (some mem) (or_hitl d.denied_by)))
      | allow ↦ read_content q mem d w
    ]

    unfoldable pub read_found :
        ReadRequest → ReadWorld → Option MemoryLabel → ReadWorld × Result ReadResult
    read_found q w none = (w, ok (refusal (early_deny q not_found) none (some not_found)))
    read_found q w (some mem) =
        let p = decide q mem w.session in act q mem p.0 (record w { session = p.1 })

    unfoldable pub read : ReadRequest → ReadWorld → ReadWorld × Result ReadResult
    read q w =
        if scope_mismatch q.scope q.anchor
        then (
          logged w (early_deny q scope_commit_mismatch),
          ok (refusal (early_deny q scope_commit_mismatch) none (some scope_commit_mismatch)),
        )
        else read_found q w (sv.get q.chunk_id)

    -- Separate calls of `read` by a caller that goes on after an error.
    unfoldable pub read_all : List ReadRequest → ReadWorld → ReadWorld × List (Result ReadResult)
    read_all [] w = (w, [])
    read_all (q ∷ qs) w = let p = read q w in let rest = read_all qs p.0 in (rest.0, p.1 ∷ rest.1)

    -- The request of one chunk of a batch, with the two identifiers drawn for it.
    unfoldable pub batch_request :
        AgentLabel → TaskScope → ℕ → String × String × String → ReadRequest
    batch_request agent scope now x = record {
      agent = agent;
      chunk_id = x.0;
      now = now;
      epoch_current = none;
      scope = some scope;
      anchor = none;
      absorbs = true;
      decision_id = x.1;
      var_id = x.2;
    }

    unfoldable pub read_many :
        AgentLabel
        → TaskScope
        → ℕ
        → List (String × String × String)
        → ReadWorld
        → ReadWorld × Result (List ReadResult)
    read_many agent scope now [] w = (w, ok [])
    read_many agent scope now (x ∷ xs) w =
        let p = read (batch_request agent scope now x) w in
        let rest = read_many agent scope now xs p.0 in
        elim p.1 [
          | raise e ↦ (p.0, raise e)
          | ok r ↦ elim rest.1 [ raise e ↦ (rest.0, raise e) | ok rs ↦ (rest.0, ok (r ∷ rs)) ]
        ]
