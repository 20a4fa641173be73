-- ===== src/Tests/Fixtures.antt =====
-- The agents, memories, sessions and scopes of the tests.
use Prim.Native.String.{len}
use trustmem.Prelude.{ℕ, max, refl, true, false, none, [], ◌∷◌, arith, ltb, str_eq, if◌then◌else◌}
use trustmem.Labels.{
  AgentLabel, MemoryLabel, l1_internal, l2_sensitive, t0_untrusted, t1_low, t2_medium, analyst,
  conclusion, semantic, active, learn, infer,
}
use trustmem.Scope.{TaskScope}
use trustmem.Session.{Session, start}
use trustmem.Decay.{Matcher}
use trustmem.Pdp.Hard.{Pdp}
use trustmem.Pdp.Write.{WriteCall}
use trustmem.Tests.Graph.{graph}

abbrev pub agent : AgentLabel
agent = record {
  agent_id = "analyst";
  role = analyst;
  clearance = l2_sensitive;
  trust_intrinsic = t2_medium;
  task_domain = "incident" ∷ [];
  collab_group = "soc" ∷ [];
  tool_scope = "log_query" ∷ "host_isolate" ∷ [];
  ttl_start = 0;
  ttl_end = 100;
  prompt_hash = "";
  epoch = 1;
}

abbrev pub note : MemoryLabel
note = record {
  chunk_id = "m1";
  sensitivity = l1_internal;
  provenance_trust = t1_low;
  layer = conclusion;
  memory_type = semantic;
  owner_agent = "analyst";
  task_binding = "incident";
  collab_group = "soc" ∷ [];
  provenance_chain = [];
  lifecycle = active;
  epoch = 1;
  declassified = false;
  ttl_end = none;
  upgraded_from = none;
  derived_from_consult = false;
}

abbrev pub session : Session
session = start "s" agent "incident"

abbrev pub pdp : Pdp graph
pdp = record {
  topo = record { g = record { nodes = []; edges = [] } };
  hide_enabled = true;
  bypass_all = false;
}

abbrev pub scope : TaskScope
scope = record {
  task_id = "incident";
  c_ctx_max = l2_sensitive;
  t_ctx_min = t1_low;
  ingest = learn;
  consult_below = t0_untrusted;
  scope_hash = "h0";
  parent_hash = "";
}

-- A scope whose data is trusted more than the note is.
abbrev pub strict : TaskScope
strict = record scope { t_ctx_min = t2_medium; scope_hash = "h1" }

-- Two texts are alike when they are the same.
abbrev pub matcher : Matcher
matcher = record {
  Ratio = ℕ;
  zero_ratio = 0;
  max_ratio = max;
  below_threshold = λ r. ltb r 80;
  sequence_ratio = λ s t. if str_eq s t then 100 else 0;
  text_len = len;
  zero_below = refl;
  max_below = λ a b. ground arith;
}

abbrev pub call : WriteCall
call = record {
  agent = agent;
  target_sensitivity = l1_internal;
  target_layer = conclusion;
  input_mems = note ∷ [];
  op = infer;
  evidence = record { input_texts = []; output_text = "found"; schema_ok = none };
  declassify_approved = false;
}
