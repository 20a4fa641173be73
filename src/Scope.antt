-- ===== src/Scope.antt =====
-- core/labels.py: `TaskScope`, the interval of confidentiality and integrity that a task may touch,
-- and `derive_taskscope`. The digest over the scope's fields is the section's parameter `digest`.
pub mod Narrowing
pub mod Derivation
use trustmem.Prelude.{
  ℕ, String, Bool, Option, none, some, List, [], ◌∷◌, ◌&&◌, leb, ltb, if◌then◌else◌, str_eq,
  nonempty, lookup,
}
use mathlib.Core.Option.{get_or}
use trustmem.Result.{Result, raise, ok, permission_error, raise_if, ◌>>=◌, ◌>>◌}
use trustmem.Labels.{
  Clearance, l0_public, l3_secret, Trust, t0_untrusted, IngestMode, AgentLabel, egress_readers,
  tool_required_trust,
}
use trustmem.Labels.Lattice.{
  trust_level, clearance_level, trust_leb, clearance_leb, min_clearance, max_trust,
}

-- What `_compute_hash` serializes.
pub record ScopePayload : Type 0 where
  pub task_id : String
  pub c_ctx_max : Clearance
  pub t_ctx_min : Trust
  pub ingest : IngestMode
  pub consult_below : Trust
  pub parent_hash : String

pub record TaskScope : Type 0 where
  pub task_id : String
  pub c_ctx_max : Clearance
  pub t_ctx_min : Trust
  pub ingest : IngestMode
  pub consult_below : Trust
  pub scope_hash : String
  pub parent_hash : String

abbrev pub payload : TaskScope → ScopePayload
payload s = record {
  task_id = s.task_id;
  c_ctx_max = s.c_ctx_max;
  t_ctx_min = s.t_ctx_min;
  ingest = s.ingest;
  consult_below = s.consult_below;
  parent_hash = s.parent_hash;
}

unfoldable pub contains_c : TaskScope → Clearance → Bool
contains_c s c = clearance_leb c s.c_ctx_max

unfoldable pub contains_t : TaskScope → Trust → Bool
contains_t s t = trust_leb s.t_ctx_min t

unfoldable pub scope_contains : TaskScope → Clearance → Trust → Bool
unfolding contains_c contains_t
scope_contains s c t = contains_c s c && contains_t s t

unfoldable pub is_subscope_of : TaskScope → TaskScope → Bool
is_subscope_of s other =
    clearance_leb s.c_ctx_max other.c_ctx_max && trust_leb other.t_ctx_min s.t_ctx_min

-- `EGRESS_READERS.get(t, Clearance.L0_PUBLIC)`
unfoldable pub readers_of : String → Clearance
readers_of t = get_or (lookup t egress_readers) l0_public

-- `TOOL_REQUIRED_TRUST.get(t, Trust.T0_UNTRUSTED)`
unfoldable pub declared_trust : String → Trust
declared_trust t = get_or (lookup t tool_required_trust) t0_untrusted

-- The minimum over a non-empty collection.
unfoldable pub least_readers : List String → Clearance
least_readers [] = l3_secret
least_readers (t ∷ ts) = min_clearance (readers_of t) (least_readers ts)

-- The maximum over a non-empty collection.
unfoldable pub greatest_required : List String → Trust
greatest_required [] = t0_untrusted
greatest_required (t ∷ ts) = max_trust (declared_trust t) (greatest_required ts)

-- The arguments of `derive_taskscope` that have a default.
pub record Declared : Type 0 where
  pub declared_exports : Option (List String)
  pub declared_tools : Option (List String)
  pub task_max_clearance : Clearance
  pub default_ingest : IngestMode
  pub exports : Option (List String)
  pub tools : Option (List String)
  pub agent : Option AgentLabel
  pub consult_below : Trust

-- `new if new is not None else (old or set())`
abbrev pub either_name : Option (List String) → Option (List String) → List String
either_name (some new) old = new
either_name none (some old) = old
either_name none none = []

abbrev pub agent_clearance : Option AgentLabel → Clearance → Clearance
agent_clearance (some a) c = a.clearance
agent_clearance none c = c

module _ (digest : ScopePayload → String) where
  -- `__post_init__`: a scope that is built with no hash gets the digest of its fields.
  unfoldable pub post_init : TaskScope → TaskScope
  post_init s = if str_eq s.scope_hash "" then record s { scope_hash = digest (payload s) } else s

  -- Whatever the arguments.
  unfoldable pub widen : TaskScope → Result TaskScope
  widen s = raise permission_error

  unfoldable pub narrow : TaskScope → Clearance → Trust → Result TaskScope
  unfolding post_init
  narrow s new_c_max new_t_min = do
    raise_if (ltb (clearance_level s.c_ctx_max) (clearance_level new_c_max)) permission_error
    raise_if (ltb (trust_level new_t_min) (trust_level s.t_ctx_min)) permission_error
    ok (
        post_init (record s {
          c_ctx_max = new_c_max;
          t_ctx_min = new_t_min;
          parent_hash = s.scope_hash;
          scope_hash = "";
        }))

  unfoldable pub derive_taskscope : String → Declared → TaskScope
  unfolding post_init
  derive_taskscope task_id d =
      let egress = either_name d.exports d.declared_exports in
      let consequential = either_name d.tools d.declared_tools in
      post_init (record {
        task_id = task_id;
        c_ctx_max =
            if nonempty egress
            then least_readers egress
            else agent_clearance d.agent d.task_max_clearance;
        t_ctx_min =
            if nonempty consequential then greatest_required consequential else t0_untrusted;
        ingest = d.default_ingest;
        consult_below = d.consult_below;
        scope_hash = "";
        parent_hash = "";
      })
