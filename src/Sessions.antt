-- ===== src/Sessions.antt =====
-- core/session.py: `SessionStore`, the sessions of all agents by session id and agent id, in the
-- order of their insertion. The code hands out references into the store; here an operation that
-- changes a session returns the store with that session replaced.
pub mod Budget
pub mod Delegation
use Prim.Native.String.{◌++◌ as str_append}
use trustmem.Prelude.{
  ℕ, zero, String, Bool, true, false, ◌&&◌, not, Option, none, some, List, [], ◌∷◌, if◌then◌else◌,
  str_eq,
}
use trustmem.Result.{Result, ok, raise, permission_error, raise_if, ◌>>=◌, ◌>>◌}
use trustmem.Labels.{Trust, Clearance, l0_public, AgentLabel, IngestMode, learn, consult}
use trustmem.Labels.Lattice.{min_trust}
use trustmem.Scope.{TaskScope, is_subscope_of}
use trustmem.Session
use trustmem.Session.{Session, bounded}

pub record Entry : Type 0 where
  pub sid : String
  pub aid : String
  pub session : Session

abbrev pub SessionStore : Type 0
SessionStore = List Entry

abbrev pub key_eq : String → String → Entry → Bool
key_eq sid aid e = str_eq e.sid sid && str_eq e.aid aid

unfoldable pub find : SessionStore → String → String → Option Session
find [] sid aid = none
find (e ∷ es) sid aid = if key_eq sid aid e then some e.session else find es sid aid

-- A session that the code changes through its reference.
unfoldable pub replace : SessionStore → String → String → Session → SessionStore
replace [] sid aid s = []
replace (e ∷ es) sid aid s =
    if key_eq sid aid e then record e { session = s } ∷ es else e ∷ replace es sid aid s

-- `self._s[key] = session` for a new key.
unfoldable pub insert_last : SessionStore → Entry → SessionStore
insert_last [] x = x ∷ []
insert_last (e ∷ es) x = e ∷ insert_last es x

abbrev or_start :
    SessionStore → Option Session → String → AgentLabel → String → SessionStore × Session
or_start st (some s) sid agent task = (st, s)
or_start st none sid agent task =
    let s = Session.start sid agent task in
    (insert_last st (record { sid = sid; aid = agent.agent_id; session = s }), s)

unfoldable pub get_or_start : SessionStore → String → AgentLabel → String → SessionStore × Session
unfolding find insert_last
get_or_start st session_id agent task_id =
    or_start st (find st session_id agent.agent_id) session_id agent task_id

unfoldable pub end : SessionStore → String → SessionStore
end [] session_id = []
end (e ∷ es) session_id =
    (if str_eq e.sid session_id then record e { session = Session.reset e.session } else e)
    ∷ end es session_id

unfoldable pub all_of : SessionStore → String → List Session
all_of [] session_id = []
all_of (e ∷ es) session_id =
    let rest = all_of es session_id in if str_eq e.sid session_id then e.session ∷ rest else rest

-- The constrained expansion: every session of the id reads the hidden content, bounded.
unfoldable pub absorb_all : SessionStore → String → String → Trust → SessionStore
absorb_all [] session_id var trust = []
absorb_all (e ∷ es) session_id var trust =
    (if str_eq e.sid session_id
      then record e { session = Session.absorb e.session var l0_public trust bounded }
      else e)
    ∷ absorb_all es session_id var trust

-- The budget that is charged is that of the first session of the id.
unfoldable pub charge : SessionStore → String → ℕ → SessionStore × Bool
charge [] session_id cost = ([], false)
charge (e ∷ es) session_id cost =
    let (es', paid) = charge es session_id cost in
    let (s', paid_here) = Session.consume_bits e.session cost in
    if str_eq e.sid session_id then (record e { session = s' } ∷ es, paid_here) else (e ∷ es', paid)

abbrev expand_all : SessionStore → String → Option Trust → SessionStore
expand_all st session_id none = st
expand_all st session_id (some trust) =
    absorb_all st session_id (str_append "#var#" session_id) trust

unfoldable pub consume_ctl : SessionStore → String → ℕ → Option Trust → SessionStore × Bool
unfolding charge absorb_all
consume_ctl st session_id cost source_trust =
    let (st', paid) = charge st session_id cost in
    if paid then (expand_all st' session_id source_trust, true) else (st', false)

-- The first session of the parent's id that belongs to the same agent.
unfoldable pub parent_of : List Session → String → Option Session
parent_of [] agent_id = none
parent_of (p ∷ ps) agent_id = if str_eq p.agent_id agent_id then some p else parent_of ps agent_id

abbrev pub inherit : Session → AgentLabel → Session → Session
inherit s agent p = record s {
  consulted = p.consulted;
  c_eff = p.c_eff;
  t_eff = min_trust p.t_eff agent.trust_intrinsic;
  t_eff_ctl = min_trust p.t_eff_ctl agent.trust_intrinsic;
  capacity_used_bits = p.capacity_used_bits;
}

abbrev pub is_learn : IngestMode → Bool
is_learn learn = true
is_learn consult = false

abbrev pub is_consult : IngestMode → Bool
is_consult learn = false
is_consult consult = true

-- The two checks on the scopes, made where both are given.
unfoldable pub check_scopes : Option TaskScope → Option TaskScope → Result (Unit {0})
check_scopes (some parent) (some child) = do
  raise_if (not (is_subscope_of child parent)) permission_error
  raise_if (is_consult parent.ingest && is_learn child.ingest) permission_error
check_scopes (some parent) none = ok tt
check_scopes none child = ok tt

-- `child_session_id or f"{parent_session_id}/{child_task_id}"`
unfoldable pub child_sid : String → String → Option String → String
child_sid parent_id task_id none = str_append parent_id (str_append "/" task_id)
child_sid parent_id task_id (some sid) =
    if str_eq sid "" then str_append parent_id (str_append "/" task_id) else sid

abbrev inherited :
    SessionStore × Session → String → AgentLabel → Option Session → SessionStore × Session
inherited r sid agent none = r
inherited (st, s) sid agent (some p) =
    let s' = inherit s agent p in (replace st sid agent.agent_id s', s')

pub record DelegateCall : Type 0 where
  pub parent_session_id : String
  pub agent : AgentLabel
  pub child_task_id : String
  pub child_session_id : Option String
  pub parent_scope : Option TaskScope
  pub child_scope : Option TaskScope

abbrev pub sid_of : DelegateCall → String
sid_of d = child_sid d.parent_session_id d.child_task_id d.child_session_id

unfoldable pub delegate : SessionStore → DelegateCall → Result (SessionStore × Session)
delegate st d = do
  check_scopes d.parent_scope d.child_scope
  let (st', s) = get_or_start st (sid_of d) d.agent d.child_task_id
  let parent = parent_of (all_of st' d.parent_session_id) d.agent.agent_id
  ok (inherited (st', s) (sid_of d) d.agent parent)
