-- ===== src/Audit/ScopeCommit.antt =====
-- core/task_scope.py: the commitment to a scope's hash and its check at run time.
use trustmem.Prelude.{
  String, Bool, true, false, ◌&&◌, ◌||◌, not, Option, none, some, List, [], ◌∷◌, ◌++◌, ◌≡◌,
  if◌then◌else◌, str_eq, str_eq_iff, nonempty, any, any-append, any-nonempty, refl, length, leb,
  lookup, insert, arith, inl, inr, Bool-cases,
}
use trustmem.Labels.{Clearance, Trust}
use trustmem.Result.{ok}
use trustmem.Scope.{ScopePayload, TaskScope, narrow, is_subscope_of}
use trustmem.Scope.Narrowing.{narrow-Within}
use trustmem.Merkle.{Bytes}
use trustmem.Audit
use trustmem.Audit.{
  EventType, manifest_commit, Payload, of_decision, of_scope, entries, AuditEvent, MerkleBlock,
  MerkleStore, same_type, select, select_blocks, commit_block, make_block, events_by_type,
}
use trustmem.Audit.Events.{Drawn}

abbrev pub scope_event : TaskScope → Drawn → AuditEvent
scope_event scope x = record {
  event_id = x.event_id;
  event_type = manifest_commit;
  subject = "manifest";
  object = scope.task_id;
  session_id = "manifest";
  payload = of_scope scope.task_id scope.scope_hash;
  at = x.at;
}

module _ (sha256 : Bytes → Bytes) (serialize : AuditEvent → Bytes) where
  unfoldable pub commit_scope : TaskScope → MerkleStore → Drawn → MerkleStore × AuditEvent
  commit_scope scope st x =
      let e = scope_event scope x in (Audit.log sha256 serialize st e x.block_id, e)

-- `payload.get("scope_hash")`
unfoldable pub committed_hash : Payload → Option String
committed_hash (of_decision d) = none
committed_hash (of_scope task hash) = some hash
committed_hash (entries m) = lookup "scope_hash" m

abbrev pub commits : String → AuditEvent → Bool
commits hash e = elim (committed_hash e.payload) [ none ↦ false | some h ↦ str_eq h hash ]

unfoldable pub verify_scope_against_chain : TaskScope → MerkleStore → Bool
unfolding committed_hash
verify_scope_against_chain scope st =
    let committed = events_by_type st manifest_commit in
    if nonempty committed
    then any (commits scope.scope_hash) committed
      || (not (str_eq scope.parent_hash "") && any (commits scope.parent_hash) committed)
    else false

module _ (p : AuditEvent → Bool) (t : EventType) where
  any-select_last :
      (es : List AuditEvent) (e : AuditEvent)
      → same_type e.event_type t ≡ true
      → p e ≡ true
      → any p (select t (es ++ e ∷ [])) ≡ true
  unfolding select
  any-select_last [] e h k = ground arith
  any-select_last (x ∷ es) e h k = ground (arith, any-select_last es e h k)

  any-select_blocks-insert :
      (id : String) (b : MerkleBlock) (m : List (String × MerkleBlock))
      → any p (select t b.events) ≡ true
      → any p (select_blocks t (insert id b m)) ≡ true
  unfolding select_blocks insert
  any-select_blocks-insert id b [] h = simp any-append (ground (arith, h))
  any-select_blocks-insert id b ((k, c) ∷ m) h = elim (Bool-cases (str_eq k id)) [
    | inl hit ↦ rw hit (simp any-append (ground (arith, h)))
    | inr miss ↦
        let ih = any-select_blocks-insert id b m h in rw miss (simp any-append (ground (arith, ih)))
  ]

module _ (sha256 : Bytes → Bytes) (serialize : AuditEvent → Bytes) where
  -- A logged event is among the events of its type, whether or not it completes a block.
  logged_event :
      (p : AuditEvent → Bool) (t : EventType) (st : MerkleStore) (e : AuditEvent) (id : String)
      → same_type e.event_type t ≡ true
      → p e ≡ true
      → any p (events_by_type (Audit.log sha256 serialize st e id) t) ≡ true
  unfolding events_by_type Audit.log commit_block
  logged_event p t st e id h k =
      let last = any-select_last p t st.pending e h k in
      let queued = record st { pending = st.pending ++ e ∷ [] } in
      let b = make_block sha256 serialize queued id in
      elim (Bool-cases (leb st.block_size (length (st.pending ++ e ∷ [])))) [
        | inl due ↦
            let inside = any-select_blocks-insert p t id b st.blocks last in
            rw due (simp any-append (ground (arith, inside)))
        | inr wait ↦ rw wait (simp any-append (ground (arith, last)))
      ]

  module _ (s : TaskScope) (st : MerkleStore) (x : Drawn) where
    abbrev committed : MerkleStore
    committed = (commit_scope sha256 serialize s st x).0

    committed_events : any (commits s.scope_hash) (events_by_type committed manifest_commit) ≡ true
    unfolding commit_scope committed_hash same_type
    committed_events =
        logged_event (commits s.scope_hash) manifest_commit st (scope_event s x) x.block_id refl
          ((str_eq_iff s.scope_hash s.scope_hash).1 refl)

    -- Once a scope is committed, it passes the check at run time, and so does every scope that
    -- `narrow` makes of it.
    pub commit_scope_verifies :
        (digest : ScopePayload → String) (c : Clearance) (t : Trust) {u : TaskScope}
        → str_eq s.scope_hash "" ≡ false
        → narrow digest s c t ≡ ok u
        → (verify_scope_against_chain s committed ≡ true)
          × (verify_scope_against_chain u committed ≡ true)
    unfolding verify_scope_against_chain
    commit_scope_verifies digest c t {u} named made =
        let (_, _, _, _, parent, _) = narrow-Within digest s c t made in
        let found = committed_events in
        let some_event =
          any-nonempty (commits s.scope_hash) (events_by_type committed manifest_commit) found in
        (ground (arith, found, some_event), rw (parent, named, found, some_event) (ground arith))

    -- The check takes any scope that names the committed hash as its parent's, also one that does
    -- not lie within the committed scope: that it was made by `narrow` is not checked.
    pub verify_scope_any_child :
        (u : TaskScope)
        → str_eq s.scope_hash "" ≡ false
        → u.parent_hash ≡ s.scope_hash
        → is_subscope_of u s ≡ false
        → verify_scope_against_chain u committed ≡ true
    unfolding verify_scope_against_chain
    verify_scope_any_child u named parent wider =
        let found = committed_events in
        let some_event =
          any-nonempty (commits s.scope_hash) (events_by_type committed manifest_commit) found in
        rw (parent, named, found, some_event) (ground arith)
