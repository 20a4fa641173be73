-- ===== src/Verdict.antt =====
-- core/verdict.py and the records of core/pdp.py: the four verdicts, the checks and the decision.
-- The prose of a check and the text of a side effect, which only fill in logs, are left out.
use trustmem.Prelude.{
  String, Bool, true, false, Option, none, some, List, [], ◌∷◌, if◌then◌else◌, all,
}
use trustmem.Labels.{Clearance, Trust}

pub data Verdict : Type 0 where
  allow hide confirm deny : Verdict

unfoldable pub is_accessible : Verdict → Bool
is_accessible deny = false
is_accessible v = true

unfoldable pub is_blocked : Verdict → Bool
is_blocked deny = true
is_blocked v = false

unfoldable pub can_read_content : Verdict → Bool
can_read_content allow = true
can_read_content v = false

-- The names of the checks.
pub data Rule : Type 0 where
  blp_simple_security need_to_know cognitive_layer ttl epoch lifecycle : Rule
  ingest_mode task_scope_c task_scope_t : Rule
  p_t_control_flow provenance_no_consult biba_star blp_star c_eff_write_down layer_write : Rule
  tool_scope p_t_provenance p_t_consult_derived flow_egress flow_egress_args : Rule
  system_capability human_in_the_loop bypass : Rule

-- What `denied_by` holds: a rule's name, or one of the other texts.
pub data Denial : Type 0 where
  by_rule : Rule → Denial
  ingest_mode_consult scope_commit_mismatch not_found signature_invalid hitl_required unknown :
      Denial
  no_write_down : List Rule → Denial

pub data Action : Type 0 where
  read write : Action
  invoke : String → Action

pub record Check : Type 0 where
  pub rule : Rule
  pub passed : Bool

pub record Decision : Type 0 where
  pub verdict : Verdict
  pub action : Action
  pub subject : String
  pub object : String
  pub checks : List Check
  pub denied_by : Option Denial
  pub session_id : String
  pub hideable : Bool
  pub pending_absorb : Option (Clearance × Trust)

-- `Decision.allowed`
unfoldable pub allowed : Decision → Bool
allowed d = can_read_content d.verdict

-- `all(c.passed for c in ck)`
abbrev pub all_passed : List Check → Bool
all_passed = all (λ c. c.passed)

-- `next(c.rule for c in ck if not c.passed)`
unfoldable pub first_failed : List Check → Option Denial
first_failed [] = none
first_failed (c ∷ cs) = if c.passed then first_failed cs else some (by_rule c.rule)
