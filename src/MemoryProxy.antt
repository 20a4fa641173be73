-- ===== src/MemoryProxy.antt =====
-- core/agent/memory_proxy.py: `MemoryProxy`, through which an agent reads and writes memories, asks
-- about hidden ones and has its tools judged. The session is the one of the reading world, and a call
-- that gives no scope uses the one derived for the session's task. The store is read as it is at the
-- call, so each call names the services that it sees.
pub mod Cleared
use trustmem.Prelude.{
  ℕ, String, Bool, true, false, Option, none, some, List, [], ◌∷◌, str_eq, if◌then◌else◌,
}
use mathlib.Core.Option.{get_or}
use trustmem.Result.{Result, ok, raise, value_error}
use trustmem.Labels.{
  AgentLabel, MemoryLabel, Clearance, Layer, MemoryType, WriteOp, l3_secret, t0_untrusted, learn,
}
use trustmem.Scope.{TaskScope, ScopePayload, Declared, derive_taskscope}
use trustmem.Topology.{Networkx}
use trustmem.Session.{Session}
use trustmem.Verdict.{Decision}
use trustmem.Decay.{Matcher}
use trustmem.Pdp.Hard.{Pdp}
use trustmem.Pdp.Invoke.{can_invoke}
use trustmem.IsolatedLlm.Queries.{ConstrainedAnswer, Query, ask_bool, ask_enum, ask_number}
use trustmem.Pipeline.Read.{
  Services, ReadWorld, ReadResult, read as read_memory, read_many as read_memories,
}
use trustmem.Pipeline.Write.{
  WriteServices, WriteWorld, WriteResult, WriteRequest, write as write_memory,
}

-- The arguments of a write; `input_chunk_ids` is never absent but may be empty.
pub record ProxyWrite : Type 0 where
  pub content : String
  pub sensitivity : Clearance
  pub layer : Layer
  pub memory_type : MemoryType
  pub input_chunk_ids : List String
  pub op : WriteOp
  pub task_binding : Option String
  pub scope : Option TaskScope
  pub schema_ok : Option Bool
  pub chunk_id : String

-- The keyword arguments of a question.
pub record Kwargs : Type 0 where
  pub options : Option (List String)
  pub min_val : Option ℕ
  pub max_val : Option ℕ

-- `[m for m in (get(cid) for cid in ids) if m is not None]`
unfoldable pub memories_of : (String → Option MemoryLabel) → List String → List MemoryLabel
memories_of get [] = []
memories_of get (id ∷ ids) =
    let rest = memories_of get ids in elim (get id) [ none ↦ rest | some mem ↦ mem ∷ rest ]

module _ (digest : ScopePayload → String) (agent : AgentLabel) where
  unfoldable pub default_scope : Session → TaskScope
  unfolding derive_taskscope
  default_scope sess = derive_taskscope digest sess.task_id (record {
    declared_exports = none;
    declared_tools = none;
    task_max_clearance = l3_secret;
    default_ingest = learn;
    exports = none;
    tools = none;
    agent = some agent;
    consult_below = t0_untrusted;
  })

  -- `scope or self._default_scope()`
  unfoldable pub or_default : Option TaskScope → Session → TaskScope
  or_default scope sess = elim scope [ none ↦ default_scope sess | some s ↦ s ]

  module _ (nx : Networkx) (pdp : Pdp nx) where
    module _ (sv : Services) where
      -- The identifiers that the pipeline draws come with the call.
      unfoldable pub read :
          String
          → Option TaskScope
          → Bool
          → ℕ
          → String × String
          → ReadWorld
          → ReadWorld × Result (ReadResult sv)
      unfolding or_default
      read chunk_id scope absorbs now drawn w =
          read_memory sv nx pdp
            (record {
              agent = agent;
              chunk_id = chunk_id;
              now = now;
              epoch_current = none;
              scope = some (or_default scope w.session);
              anchor = none;
              absorbs = absorbs;
              decision_id = drawn.0;
              var_id = drawn.1;
            })
            w

      unfoldable pub read_many :
          List (String × String × String)
          → Option TaskScope
          → ℕ
          → ReadWorld
          → ReadWorld × Result (List (ReadResult sv))
      unfolding or_default
      read_many chunks scope now w =
          read_memories sv nx pdp agent (or_default scope w.session) now chunks w

      unfoldable pub memory_label : String → Option MemoryLabel
      memory_label chunk_id = sv.get chunk_id

      -- The request of a write, with the memories that its inputs name.
      unfoldable pub write_request : ProxyWrite → Session → WriteRequest
      unfolding or_default memories_of
      write_request p sess = record {
        content = p.content;
        call = record {
          agent = agent;
          target_sensitivity = p.sensitivity;
          target_layer = p.layer;
          input_mems = memories_of sv.get p.input_chunk_ids;
          op = p.op;
          evidence = record { input_texts = []; output_text = p.content; schema_ok = p.schema_ok };
          declassify_approved = false;
        };
        memory_type = p.memory_type;
        task_binding = p.task_binding;
        collab_group = none;
        ttl_end = none;
        scope = or_default p.scope sess;
        anchor = none;
        chunk_id = p.chunk_id;
      }

      unfoldable pub write :
          (wv : WriteServices)
          → Matcher
          → ProxyWrite
          → Session
          → WriteWorld wv
          → WriteWorld wv × Result (WriteResult wv)
      unfolding write_request
      write wv m p sess w = write_memory wv nx m pdp (write_request p sess) sess w

    unfoldable pub can_invoke_tool :
        String → String → List MemoryLabel → List MemoryLabel → Session → Decision
    can_invoke_tool tool_name fingerprint provenance arg_labels sess =
        can_invoke nx pdp
          (record {
            agent = agent;
            tool = tool_name;
            action_fingerprint = fingerprint;
            provenance = provenance;
            arg_labels = arg_labels;
          })
          sess

-- The question that a constraint type names, or the `ValueError`.
unfoldable pub question_for : String → String → String → Kwargs → Result Query
question_for constraint_type var_id question kw =
    if str_eq constraint_type "bool"
    then ok (ask_bool var_id question)
    else if str_eq constraint_type "enum"
    then ok (ask_enum var_id question (get_or kw.options []))
    else if str_eq constraint_type "number"
    then ok (ask_number var_id question (get_or kw.min_val 0) (get_or kw.max_val 100))
    else raise value_error

module _ {Model : Type 0} (ask : Model → Query → Result ConstrainedAnswer × Model) where
  unfoldable pub query_var :
      Model → String → String → String → Kwargs → Result ConstrainedAnswer × Model
  unfolding question_for
  query_var model constraint_type var_id question kw =
      elim (question_for constraint_type var_id question kw) [
        | raise e ↦ (raise e, model)
        | ok q ↦ ask model q
      ]
