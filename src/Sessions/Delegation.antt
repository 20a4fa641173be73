-- ===== src/Sessions/Delegation.antt =====
-- What a delegated session inherits.
use trustmem.Prelude.{
  ◌≤◌, ◌≡◌, ◌≢◌, refl, String, none, some, [], ◌∷◌, All, arith, Option-cases, ◌∙◌, str_eq_iff, inl,
  inr,
}
use trustmem.Result.{ok}
use trustmem.Labels.{AgentLabel}
use trustmem.Labels.Lattice.{trust_level, trust_level-min_trust}
use trustmem.Session.{Session, start}
use trustmem.Sessions.{
  Entry, SessionStore, find, replace, insert_last, get_or_start, all_of, parent_of, DelegateCall,
  inherit, sid_of, delegate,
}

-- The sessions are stored under their own ids, as `get_or_start` stores them.
abbrev pub IsKeyed : SessionStore → Type 0
IsKeyed = All (λ e. (e.session.agent_id ≡ e.aid) × (e.session.session_id ≡ e.sid))

parent_of-find :
    (st : SessionStore) (sid aid : String)
    → IsKeyed st
    → parent_of (all_of st sid) aid ≡ find st sid aid
unfolding parent_of all_of find
parent_of-find [] sid aid k = refl
parent_of-find (e ∷ es) sid aid k = ground (arith, parent_of-find es sid aid k.1)

find-insert_last_hit :
    (st : SessionStore) (x : Entry) (sid aid : String) (s : Session)
    → find st sid aid ≡ some s
    → find (insert_last st x) sid aid ≡ some s
unfolding find insert_last
find-insert_last_hit [] x sid aid s h = cc
find-insert_last_hit (e ∷ es) x sid aid s h = ground (arith, find-insert_last_hit es x sid aid s)

find-insert_last_miss :
    (st : SessionStore) (x : Entry) (sid aid : String)
    → find st sid aid ≡ none
    → find (insert_last st x) sid aid ≡ find (x ∷ []) sid aid
unfolding find insert_last
find-insert_last_miss [] x sid aid h = refl
find-insert_last_miss (e ∷ es) x sid aid h = ground (arith, find-insert_last_miss es x sid aid)

insert_last-IsKeyed :
    (st : SessionStore) (x : Entry)
    → (x.session.agent_id ≡ x.aid) × (x.session.session_id ≡ x.sid)
    → IsKeyed st
    → IsKeyed (insert_last st x)
unfolding insert_last
insert_last-IsKeyed [] x h k = (h, tt)
insert_last-IsKeyed (e ∷ es) x h k = (k.0, insert_last-IsKeyed es x h k.1)

find-replace :
    (st : SessionStore) (sid aid : String) (s u : Session)
    → find st sid aid ≡ some s
    → find (replace st sid aid u) sid aid ≡ some u
unfolding find replace
find-replace [] sid aid s u h = cc
find-replace (e ∷ es) sid aid s u h = ground (arith, find-replace es sid aid s u)

-- After `get_or_start` the store holds the session that it returns, under ids that still fit.
pub get_or_start-find :
    (st : SessionStore) (sid : String) (a : AgentLabel) (task : String)
    → IsKeyed st
    → (find (get_or_start st sid a task).0 sid a.agent_id ≡ some (get_or_start st sid a task).1)
      × IsKeyed (get_or_start st sid a task).0
unfolding get_or_start find start
get_or_start-find st sid a task k = elim (Option-cases (find st sid a.agent_id)) [
  | inl new ↦ rw new (
    find-insert_last_miss st _ sid a.agent_id new
        ∙ ground (arith, str_eq_iff sid sid, str_eq_iff a.agent_id a.agent_id),
    insert_last-IsKeyed st _ (refl, refl) k,
  )
  | inr (s, old) ↦ rw old (old, k)
]

get_or_start_keeps :
    (st : SessionStore) (sid other : String) (a : AgentLabel) (task : String) (s : Session)
    → find st other a.agent_id ≡ some s
    → find (get_or_start st sid a task).0 other a.agent_id ≡ some s
unfolding get_or_start
get_or_start_keeps st sid other a task s h = elim (Option-cases (find st sid a.agent_id)) [
  | inl new ↦ rw new (find-insert_last_hit st _ other a.agent_id s h)
  | inr (u, old) ↦ rw old h
]

-- What the delegated session `s` has from the parent `p`.
pub record Inherits (p s : Session) (a : AgentLabel) : Type 0 where
  pub data_flow : trust_level s.t_eff ≤ trust_level p.t_eff
  pub data_flow_own : trust_level s.t_eff ≤ trust_level a.trust_intrinsic
  pub control_flow : trust_level s.t_eff_ctl ≤ trust_level p.t_eff_ctl
  pub control_flow_own : trust_level s.t_eff_ctl ≤ trust_level a.trust_intrinsic
  pub secrecy : s.c_eff ≡ p.c_eff
  pub consulted : s.consulted ≡ p.consulted
  pub budget : s.capacity_used_bits ≡ p.capacity_used_bits

-- If the delegated agent has a session `p` under the parent's id, `delegate` stores and returns
-- a session whose two levels are at most those of `p` and at most the agent's own, and whose
-- high-water mark, consulted chunks and spent budget are those of `p`.
pub delegate-Inherits :
    (st : SessionStore) (d : DelegateCall) (p : Session) {r : SessionStore × Session}
    → IsKeyed st
    → find st d.parent_session_id d.agent.agent_id ≡ some p
    → delegate st d ≡ ok r
    → (find r.0 (sid_of d) d.agent.agent_id ≡ some r.1) × Inherits p r.1 d.agent
unfolding delegate
delegate-Inherits st d p k h e =
    let got = get_or_start st (sid_of d) d.agent d.child_task_id in
    let kept = get_or_start-find st (sid_of d) d.agent d.child_task_id k in
    let found =
      parent_of-find got.0 d.parent_session_id d.agent.agent_id kept.1
      ∙ get_or_start_keeps st (sid_of d) d.parent_session_id d.agent d.child_task_id p h in
    ground (
      arith,
      found,
      find-replace got.0 (sid_of d) d.agent.agent_id got.1 (inherit got.1 d.agent p) kept.0,
      trust_level-min_trust p.t_eff d.agent.trust_intrinsic,
      trust_level-min_trust p.t_eff_ctl d.agent.trust_intrinsic,
    )

-- An agent that has no session under the parent's id, and none under the child's, gets a fresh
-- one: it inherits neither the levels nor the consulted chunks nor the spent budget of the
-- sessions that delegate to it.
pub delegate_across_agents :
    (st : SessionStore) (d : DelegateCall) {r : SessionStore × Session}
    → IsKeyed st
    → find st d.parent_session_id d.agent.agent_id ≡ none
    → find st (sid_of d) d.agent.agent_id ≡ none
    → sid_of d ≢ d.parent_session_id
    → delegate st d ≡ ok r
    → r.1 ≡ start (sid_of d) d.agent d.child_task_id
unfolding delegate get_or_start
delegate_across_agents st d k h new apart e =
    let aid = d.agent.agent_id in
    let s = start (sid_of d) d.agent d.child_task_id in
    let x : Entry = record { sid = sid_of d; aid = aid; session = s } in
    let missed =
      parent_of-find (insert_last st x) d.parent_session_id aid
        (insert_last-IsKeyed st x (unfold start in (refl, refl)) k)
      ∙ find-insert_last_miss st x d.parent_session_id aid h in
    let other : find (x ∷ []) d.parent_session_id aid ≡ none =
      unfold find in ground (arith, str_eq_iff (sid_of d) d.parent_session_id) in
    ground (arith, new, missed, other)
