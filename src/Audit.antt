-- ===== src/Audit.antt =====
-- core/merkle.py: audit events, blocks of events, the store that chains the blocks, and the
-- translation of decisions into events. SHA-256 and the serialization of an event are parameters.
-- The identifiers that the code draws at random are arguments, and so is the time.
pub mod Replay
pub mod Integrity
pub mod Chain
pub mod Events
pub mod ScopeCommit
use trustmem.Prelude.{
  ℕ, zero, suc, ◌+◌, String, Bool, true, false, not, ◌&&◌, Option, none, some, List, [], ◌∷◌, ◌++◌,
  map, ltb, leb, if◌then◌else◌, length, nonempty, all, str_eq, lookup, insert,
}
use trustmem.Result.{Result, ok, raise, key_error, value_error, runtime_error, ◌>>=◌}
use trustmem.Verdict.{Decision}
use trustmem.Merkle.{
  Bytes, bytes_eq, MerkleTree, MerkleProof, leaf_hash, build, proof, verify_with_leaf_hash,
}

pub data EventType : Type 0 where
  write_allow write_deny read_allow read_hide read_deny tool_invoke tool_deny : EventType
  hitl_confirm declassify consult trust_upgrade manifest_commit signkey_bind : EventType

-- The payloads that the modelled code builds: a decision, and the commitment to a scope, task and
-- hash; and any other dictionary.
pub data Payload : Type 0 where
  of_decision : Decision → Payload
  of_scope : String → String → Payload
  entries : List (String × String) → Payload

pub record AuditEvent : Type 0 where
  pub event_id : String
  pub event_type : EventType
  pub subject : String
  pub object : String
  pub session_id : String
  pub payload : Payload
  pub at : ℕ

pub record MerkleBlock : Type 0 where
  pub block_id : String
  pub events : List AuditEvent
  pub tree : MerkleTree
  pub prev_root : Bytes

pub record MerkleStore : Type 0 where
  pub block_size : ℕ
  pub blocks : List (String × MerkleBlock)
  pub event_index : List (String × String)
  pub pending : List AuditEvent
  pub session_index : List (String × List String)
  pub chain : List String
  pub last_root : Bytes

abbrev pub empty_store : ℕ → MerkleStore
empty_store block_size = record {
  block_size = block_size;
  blocks = [];
  event_index = [];
  pending = [];
  session_index = [];
  chain = [];
  last_root = [];
}

abbrev pub next_position : Option (ℕ × AuditEvent) → Option (ℕ × AuditEvent)
next_position none = none
next_position (some (i, e)) = some (suc i, e)

-- The position of the first event with the id, and the event.
unfoldable pub find_event : List AuditEvent → String → Option (ℕ × AuditEvent)
find_event [] id = none
find_event (e ∷ es) id =
    if str_eq e.event_id id then some (0, e) else next_position (find_event es id)

-- `_session_index.setdefault(sid, []).append(eid)`
unfoldable pub append_to :
    String → String → List (String × List String) → List (String × List String)
append_to sid eid [] = (sid, eid ∷ []) ∷ []
append_to sid eid ((s, es) ∷ m) =
    if str_eq s sid then (s, es ++ eid ∷ []) ∷ m else (s, es) ∷ append_to sid eid m

-- The loop of `_commit_block` over the events, one index at a time.
unfoldable pub index_events :
    List AuditEvent → String → List (String × String) → List (String × String)
index_events [] block_id m = m
index_events (e ∷ es) block_id m = index_events es block_id (insert e.event_id block_id m)

unfoldable pub index_sessions :
    List AuditEvent → List (String × List String) → List (String × List String)
index_sessions [] m = m
index_sessions (e ∷ es) m = index_sessions es (append_to e.session_id e.event_id m)

-- The block that an event is indexed under.
unfoldable pub block_of : MerkleStore → String → Option MerkleBlock
block_of st event_id = elim (lookup event_id st.event_index) [
  | none ↦ none
  | some id ↦ if str_eq id "" then none else lookup id st.blocks
]

abbrev event_only : Option (ℕ × AuditEvent) → Option AuditEvent
event_only none = none
event_only (some (i, e)) = some e

abbrev in_block : Option MerkleBlock → String → Option AuditEvent
in_block none id = none
in_block (some b) id = event_only (find_event b.events id)

unfoldable pub get_event : MerkleStore → String → Option AuditEvent
get_event st id = in_block (block_of st id) id

unfoldable pub proof_for : MerkleBlock → String → Result (Option MerkleProof)
proof_for b id = elim (find_event b.events id) [ none ↦ ok none | some (i, e) ↦ proof b.tree i ]

unfoldable pub get_proof : MerkleStore → String → Result (Option MerkleProof)
unfolding proof_for
get_proof st id = elim (block_of st id) [ none ↦ ok none | some b ↦ proof_for b id ]

-- `verify_chain`: the blocks in order, each with whether it is linked to the one before.
unfoldable pub verify_links :
    List (String × MerkleBlock) → Bytes → List String → Result (List (String × Bool))
verify_links blocks prev [] = ok []
verify_links blocks prev (id ∷ ids) = elim (lookup id blocks) [
  | none ↦ raise key_error
  | some b ↦ do
    rest ← verify_links blocks b.tree.root ids
    ok ((id, not (nonempty prev && not (bytes_eq b.prev_root prev))) ∷ rest)
]

unfoldable pub verify_chain : MerkleStore → Result (Bool × List (String × Bool))
unfolding verify_links
verify_chain st = do
  results ← verify_links st.blocks [] st.chain
  ok (all (λ r. r.1) results, results)

unfoldable pub same_type : EventType → EventType → Bool
same_type write_allow write_allow = true
same_type write_deny write_deny = true
same_type read_allow read_allow = true
same_type read_hide read_hide = true
same_type read_deny read_deny = true
same_type tool_invoke tool_invoke = true
same_type tool_deny tool_deny = true
same_type hitl_confirm hitl_confirm = true
same_type declassify declassify = true
same_type consult consult = true
same_type trust_upgrade trust_upgrade = true
same_type manifest_commit manifest_commit = true
same_type signkey_bind signkey_bind = true
same_type a b = false

unfoldable pub select : EventType → List AuditEvent → List AuditEvent
select t [] = []
select t (e ∷ es) = if same_type e.event_type t then e ∷ select t es else select t es

unfoldable pub select_blocks : EventType → List (String × MerkleBlock) → List AuditEvent
select_blocks t [] = []
select_blocks t ((id, b) ∷ bs) = select t b.events ++ select_blocks t bs

-- The committed events of the type, then the pending ones.
unfoldable pub events_by_type : MerkleStore → EventType → List AuditEvent
unfolding select select_blocks
events_by_type st t = select_blocks t st.blocks ++ select t st.pending

module _ (sha256 : Bytes → Bytes) (serialize : AuditEvent → Bytes) where
  unfoldable pub make_block : MerkleStore → String → MerkleBlock
  make_block st id = record {
    block_id = id;
    events = st.pending;
    tree = build sha256 (map serialize st.pending);
    prev_root = st.last_root;
  }

  -- `_commit_block`
  unfoldable pub commit_block : MerkleStore → String → MerkleStore × MerkleBlock
  unfolding make_block
  commit_block st id =
      let b = make_block st id in
      (
        record st {
          pending = [];
          last_root = b.tree.root;
          chain = st.chain ++ id ∷ [];
          blocks = insert id b st.blocks;
          event_index = index_events st.pending id st.event_index;
          session_index = index_sessions st.pending st.session_index;
        },
        b,
      )

  unfoldable pub log : MerkleStore → AuditEvent → String → MerkleStore
  log st e id =
      let st' = record st { pending = st.pending ++ e ∷ [] } in
      if leb st.block_size (length (st.pending ++ e ∷ [])) then (commit_block st' id).0 else st'

  unfoldable pub flush : MerkleStore → String → MerkleStore × Option MerkleBlock
  flush st id =
      let (st', b) = commit_block st id in if nonempty st.pending then (st', some b) else (st, none)

  abbrev pub proof_checks : Option MerkleProof → AuditEvent → Bool
  proof_checks none e = false
  proof_checks (some q) e = verify_with_leaf_hash sha256 q (leaf_hash sha256 (serialize e))

  -- `MerkleBlock.verify_event`
  unfoldable pub block_verify_event : MerkleBlock → String → Result Bool
  block_verify_event b id = elim (find_event b.events id) [
    | none ↦ ok false
    | some (i, e) ↦ do p ← proof b.tree i; ok (proof_checks p e)
  ]

  unfoldable pub verify_event : MerkleStore → String → Result Bool
  verify_event st id = elim (block_of st id) [ none ↦ ok false | some b ↦ block_verify_event b id ]
