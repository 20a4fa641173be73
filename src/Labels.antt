-- ===== src/Labels.antt =====
-- core/labels.py: the enumerations, the subject's and the object's label, and the tables of tools.
-- A set of texts is a list that the code reads by membership, a datetime is a number. The fields
-- of a label that only fill in log lines or keys elsewhere are kept.
pub mod Lattice
use trustmem.Prelude.{
  ℕ, zero, suc, String, Bool, true, Option, none, some, List, [], ◌∷◌, ◌&&◌, leb,
}

pub data Clearance : Type 0 where
  l0_public l1_internal l2_sensitive l3_secret : Clearance

pub data Trust : Type 0 where
  t0_untrusted t1_low t2_medium t3_high : Trust

pub data Layer : Type 0 where
  directive conclusion reasoning : Layer

pub data Role : Type 0 where
  planner retriever analyst executor auditor external : Role

pub data MemoryType : Type 0 where
  semantic episodic trajectory procedural intel : MemoryType

pub data WriteOp : Type 0 where
  verbatim extract summarize infer fuse : WriteOp

pub data IngestMode : Type 0 where
  learn consult : IngestMode

pub data Lifecycle : Type 0 where
  active archived revoked : Lifecycle

pub record AgentLabel : Type 0 where
  pub agent_id : String
  pub role : Role
  pub clearance : Clearance
  pub trust_intrinsic : Trust
  pub task_domain : List String
  pub collab_group : List String
  pub tool_scope : List String
  pub ttl_start : ℕ
  pub ttl_end : ℕ
  pub prompt_hash : String
  pub epoch : ℕ

pub record MemoryLabel : Type 0 where
  pub chunk_id : String
  pub sensitivity : Clearance
  pub provenance_trust : Trust
  pub layer : Layer
  pub memory_type : MemoryType
  pub owner_agent : String
  pub task_binding : String
  pub collab_group : List String
  pub provenance_chain : List String
  pub lifecycle : Lifecycle
  pub epoch : ℕ
  pub declassified : Bool
  pub ttl_end : Option ℕ
  pub upgraded_from : Option String
  pub derived_from_consult : Bool

-- `AgentLabel.in_ttl`
unfoldable pub agent_in_ttl : AgentLabel → ℕ → Bool
agent_in_ttl a now = leb a.ttl_start now && leb now a.ttl_end

-- `MemoryLabel.in_ttl`
unfoldable pub memory_in_ttl : MemoryLabel → ℕ → Bool
memory_in_ttl m now = elim m.ttl_end [ none ↦ true | some end ↦ leb now end ]

abbrev pub tool_required_trust : List (String × Trust)
tool_required_trust =
    ("web_search", t0_untrusted)
    ∷ ("intel_fetch", t0_untrusted)
    ∷ ("log_query", t1_low)
    ∷ ("asset_query", t2_medium)
    ∷ ("file_read", t2_medium)
    ∷ ("file_write", t3_high)
    ∷ ("exec_command", t3_high)
    ∷ ("firewall_block", t3_high)
    ∷ ("host_isolate", t3_high)
    ∷ ("situation_query", t1_low)
    ∷ ("spectrum_query", t1_low)
    ∷ ("xdomain_receive", t0_untrusted)
    ∷ ("xdomain_forward", t1_low)
    ∷ ("risk_level_publish", t2_medium)
    ∷ []

abbrev pub export_tool_required_trust : List (String × Trust)
export_tool_required_trust =
    ("memory.write", t1_low)
    ∷ ("file.write", t3_high)
    ∷ ("exec_command", t3_high)
    ∷ ("firewall_block", t3_high)
    ∷ ("host_isolate", t3_high)
    ∷ ("api.respond", t1_low)
    ∷ []

abbrev pub egress_tools : List String
egress_tools =
    "memory.write" ∷ "file_write" ∷ "external_api.call" ∷ "answer_to_user" ∷ "web_search"
    ∷ "intel_fetch" ∷ "xdomain_forward" ∷ "api.external" ∷ "file.write" ∷ "api.respond" ∷ []

abbrev pub egress_readers : List (String × Clearance)
egress_readers =
    ("web_search", l0_public)
    ∷ ("intel_fetch", l0_public)
    ∷ ("answer_to_user", l1_internal)
    ∷ ("external_api.call", l1_internal)
    ∷ ("file_write", l2_sensitive)
    ∷ ("memory.write", l3_secret)
    ∷ ("xdomain_forward", l0_public)
    ∷ ("api.external", l1_internal)
    ∷ ("file.write", l2_sensitive)
    ∷ ("api.respond", l1_internal)
    ∷ []
