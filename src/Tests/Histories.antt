-- ===== src/Tests/Histories.antt =====
-- Sessions, scopes and handles on concrete inputs.
use trustmem.Prelude.{◌≡◌, ◌≢◌, refl, String, none, some, List, [], ◌∷◌, lookup}
use trustmem.Result.{ok}
use trustmem.Labels.{l0_public, l1_internal, l2_sensitive, t1_low, t2_medium, t0_untrusted, learn}
use trustmem.Labels.Lattice.{trust_level, clearance_level, min_trust}
use trustmem.Scope.{Declared, is_subscope_of, narrow}
use trustmem.Session.{Session, start, full, absorbs, consumes, raises, resets, Op, run}
use trustmem.Session.LowWater.{IsAccounted, start-IsAccounted, history, run-IsAccounted}
use trustmem.Sessions.{
  SessionStore, DelegateCall, find, sid_of, delegate, consume_ctl, child_sid, check_scopes,
  get_or_start, parent_of, all_of, replace, insert_last,
}
use trustmem.Sessions.Budget.{AllTainted, consume_ctl-AllTainted}
use trustmem.Sessions.Delegation.{IsKeyed, Inherits, delegate-Inherits, delegate_across_agents}
use trustmem.Verdict.{unknown}
use trustmem.Vars.{VType, VarHandle, VarStore, bits, capacity_of, get}
use trustmem.HumanGate.{HumanRequest, Step, submits, resolves, run as run_steps}
use trustmem.Tests.Fixtures.{agent, session, scope, strict}

abbrev ops : List Op
ops =
    absorbs "m1" l1_internal t1_low full
    ∷ consumes 3
    ∷ resets
    ∷ absorbs "m1" l1_internal t1_low full
    ∷ raises t2_medium
    ∷ consumes 3
    ∷ consumes 3
    ∷ []

run-IsAccounted_example : IsAccounted (run session ops) (history session [] ops)
run-IsAccounted_example = run-IsAccounted session [] ops (start-IsAccounted "s" agent "incident")

abbrev sessions : SessionStore
sessions = record { sid = "s"; aid = "analyst"; session = session } ∷ []

keyed : IsKeyed sessions
unfolding start
keyed = ((refl, refl), tt)

abbrev sub : DelegateCall
sub = record {
  parent_session_id = "s";
  agent = agent;
  child_task_id = "dig";
  child_session_id = some "s2";
  parent_scope = some scope;
  child_scope = some strict;
}

-- A call for an agent that has no session under the parent's id.
abbrev across : DelegateCall
across = record sub { agent = record agent { agent_id = "executor" } }

at_home : find sessions "s" "analyst" ≡ some session
unfolding find
at_home = refl

abbrev child : Session
child = record (start "s2" agent "dig") {
  consulted = [];
  c_eff = l0_public;
  t_eff = t2_medium;
  t_eff_ctl = t2_medium;
  capacity_used_bits = 0;
}

abbrev other : SessionStore × Session
other = (
  record { sid = "s"; aid = "analyst"; session = session }
      ∷ record {
        sid = "s2";
        aid = "executor";
        session = start "s2" (record agent { agent_id = "executor" }) "dig";
      }
      ∷ [],
  start "s2" (record agent { agent_id = "executor" }) "dig",
)

abbrev both : SessionStore
both =
    record { sid = "s"; aid = "analyst"; session = session }
    ∷ record { sid = "s2"; aid = "analyst"; session = child }
    ∷ []

delegated : delegate sessions sub ≡ ok (both, child)
unfolding delegate start check_scopes is_subscope_of clearance_level trust_level get_or_start
    parent_of all_of replace child_sid find insert_last min_trust
delegated = refl

delegate-Inherits_example : (find both "s2" "analyst" ≡ some child) × Inherits session child agent
unfolding child_sid
delegate-Inherits_example = delegate-Inherits sessions sub session keyed at_home delegated

delegated_across : delegate sessions across ≡ ok other
unfolding delegate start check_scopes is_subscope_of clearance_level trust_level get_or_start
    parent_of all_of replace child_sid find insert_last
delegated_across = refl

absent : find sessions "s" "executor" ≡ none
unfolding find
absent = refl

absent_child : find sessions (sid_of across) "executor" ≡ none
unfolding find child_sid
absent_child = refl

other_id : sid_of across ≢ "s"
unfolding child_sid
other_id e = absurd (cc e)

delegate_across_agents_example :
    other.1 ≡ start (sid_of across) (record agent { agent_id = "executor" }) "dig"
delegate_across_agents_example =
    delegate_across_agents sessions across keyed absent absent_child other_id delegated_across

consume_ctl-AllTainted_example : AllTainted sessions (consume_ctl sessions "s" 2 (some t1_low)).0
consume_ctl-AllTainted_example = consume_ctl-AllTainted sessions "s" 2 (some t1_low)

narrow-strict :
    narrow (λ p. "h1") scope l2_sensitive t2_medium ≡ ok (record strict { parent_hash = "h0" })
unfolding narrow clearance_level trust_level
narrow-strict = refl

abbrev declared : Declared
declared = record {
  declared_exports = none;
  declared_tools = some ("host_isolate" ∷ []);
  task_max_clearance = l2_sensitive;
  default_ingest = learn;
  exports = some ("answer_to_user" ∷ "file_write" ∷ []);
  tools = none;
  agent = some agent;
  consult_below = t0_untrusted;
}

abbrev handle : VarHandle
handle = record {
  var_id = "v1";
  chunk_id = "m1";
  reason = unknown;
  constraint_types = [];
  source_trust = t1_low;
  sensitivity = l1_internal;
}

abbrev handles : VarStore
handles = record { by_var = ("v1", handle) ∷ []; by_chunk = ("m1", handle) ∷ [] }

held : get handles "v1" ≡ some handle
unfolding get lookup
held = refl

boolean : capacity_of VType.bool ≡ ok (bits 1)
unfolding capacity_of
boolean = refl

abbrev three : List String
three = "a" ∷ "b" ∷ "c" ∷ []

abbrev request : HumanRequest
request = record {
  request_id = "r1";
  kind = "hitl";
  agent_id = "executor";
  tool_name = some "host_isolate";
  action_fingerprint = "fp";
}

abbrev steps : List Step
steps = submits request ∷ resolves "r1" (record { decision = "approve"; reason = "" }) ∷ []
