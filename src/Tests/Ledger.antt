-- ===== src/Tests/Ledger.antt =====
-- The audit ledger on concrete events, with a constant digest.
use trustmem.Prelude.{
  any, str_eq, ◌≡◌, ◌⊎◌, refl, String, true, false, none, some, List, [], ◌∷◌, Bool, map, length,
  lookup, insert, get_elem?,
}
use trustmem.Result.{ok}
use trustmem.Labels.{l2_sensitive, l3_secret, t0_untrusted, t2_medium}
use trustmem.Labels.Lattice.{clearance_level, trust_level}
use trustmem.Scope.{TaskScope, narrow, is_subscope_of}
use trustmem.Verdict.{Decision, allow, read}
use trustmem.Merkle.{Bytes, MerkleProof, build, proof, verify_leaf, verify_proof}
use trustmem.Merkle.Paths.{proof_verifies}
use trustmem.Merkle.Soundness.{Member, Collision, verify_leaf_sound}
use trustmem.Audit.{
  AuditEvent, empty_store, read_allow, of_decision, verify_event, verify_chain, log, flush,
  commit_block, index_events, MerkleBlock, find_event, block_verify_event,
}
use trustmem.Audit.{MerkleStore, get_event}
use trustmem.Audit.Replay.{IsOrdered, replay_session, ids_of, passes, replay_session-IsOrdered}
use trustmem.Audit.Integrity.{block_verify_event_ok}
use trustmem.Audit.Chain.{log_all, AllFresh, log_all-verify_chain, log_all-verify_event}
use trustmem.Audit.Events.{Drawn}
use trustmem.Audit.ScopeCommit.{
  commit_scope, verify_scope_against_chain, commit_scope_verifies, verify_scope_any_child,
}
use trustmem.Tests.Fixtures.{scope, strict}

-- 32 bytes, whatever the input.
abbrev digest : Bytes → Bytes
digest d =
    0 ∷ 0 ∷ 0 ∷ 0 ∷ 0 ∷ 0 ∷ 0 ∷ 0 ∷ 0 ∷ 0 ∷ 0 ∷ 0 ∷ 0 ∷ 0 ∷ 0 ∷ 0 ∷ 0 ∷ 0 ∷ 0 ∷ 0 ∷ 0 ∷ 0 ∷ 0 ∷ 0
    ∷ 0 ∷ 0 ∷ 0 ∷ 0 ∷ 0 ∷ 0 ∷ 0 ∷ 0 ∷ []

abbrev serialize : AuditEvent → Bytes
serialize e = e.at ∷ []

abbrev leaves : List Bytes
leaves = (1 ∷ []) ∷ (2 ∷ []) ∷ (3 ∷ []) ∷ []

sized : (d : Bytes) → length (digest d) ≡ 32
sized d = refl

second : get_elem? leaves 1 ≡ some (2 ∷ [])
second = refl

proof_verifies_example :
    (p : MerkleProof) × (proof (build digest leaves) 1 ≡ ok (some p))
    × (verify_leaf digest (2 ∷ []) p ≡ true)
    × (verify_proof digest p ≡ true)
    × (p.root ≡ (build digest leaves).root)
    × (p.leaf_index ≡ 1)
proof_verifies_example = proof_verifies digest leaves 1 second

abbrev path : MerkleProof
path = proof_verifies_example.0

verify_leaf_sound_example : Member (2 ∷ []) leaves ⊎ Collision digest
verify_leaf_sound_example =
    verify_leaf_sound digest sized leaves (2 ∷ []) path proof_verifies_example.4
      proof_verifies_example.2

abbrev decision : Decision
decision = record {
  verdict = allow;
  action = read;
  subject = "analyst";
  object = "m1";
  checks = [];
  denied_by = none;
  session_id = "s";
  hideable = true;
  pending_absorb = none;
}

abbrev event : AuditEvent
event = record {
  event_id = "e1";
  event_type = read_allow;
  subject = "analyst";
  object = "m1";
  session_id = "s";
  payload = of_decision decision;
  at = 7;
}

abbrev history : List (AuditEvent × String)
history = (event, "b1") ∷ (record event { event_id = "e2" }, "b2") ∷ []

abbrev drawn : Drawn
drawn = record { event_id = "e1"; block_id = "b1"; at = 7 }

narrowed_scope :
    narrow (λ p. "h1") scope l2_sensitive t2_medium ≡ ok (record strict { parent_hash = "h0" })
unfolding narrow clearance_level trust_level
narrowed_scope = refl

commit_scope_verifies_example :
    (verify_scope_against_chain scope (commit_scope digest serialize scope (empty_store 2) drawn).0
      ≡ true)
    × (verify_scope_against_chain
          (record strict { parent_hash = "h0" })
          (commit_scope digest serialize scope (empty_store 2) drawn).0
        ≡ true)
commit_scope_verifies_example =
    commit_scope_verifies digest serialize scope (empty_store 2) drawn (λ p. "h1") l2_sensitive
      t2_medium refl narrowed_scope

-- Wider than the scope that it names as its parent.
abbrev wider : TaskScope
wider = record scope {
  c_ctx_max = l3_secret;
  t_ctx_min = t0_untrusted;
  parent_hash = "h0";
  scope_hash = "x";
}

is_wider : is_subscope_of wider scope ≡ false
unfolding is_subscope_of clearance_level trust_level
is_wider = refl

verify_scope_any_child_example :
    verify_scope_against_chain wider (commit_scope digest serialize scope (empty_store 2) drawn).0
    ≡ true
verify_scope_any_child_example =
    verify_scope_any_child digest serialize scope (empty_store 2) drawn wider refl refl is_wider

fresh : AllFresh digest serialize (empty_store 1) history "b3"
unfolding log lookup commit_block insert
fresh = ((refl, refl), ((refl, refl), (refl, refl)))

log_all-verify_chain_example :
    (rs : List (String × Bool)) × ((verify_chain
          (log_all digest serialize (empty_store 1) history "b3")
        ≡ ok (true, rs))
      × (map (λ r. r.0) rs ≡ (log_all digest serialize (empty_store 1) history "b3").chain))
log_all-verify_chain_example = log_all-verify_chain digest serialize 1 history "b3" fresh

indexed :
    lookup "e2" (log_all digest serialize (empty_store 1) history "b3").event_index ≡ some "b2"
unfolding log_all log flush lookup commit_block index_events insert
indexed = refl

log_all-verify_event_example :
    verify_event digest serialize (log_all digest serialize (empty_store 1) history "b3") "e2"
    ≡ ok true
log_all-verify_event_example =
    log_all-verify_event digest serialize 1 history "b3" "e2" "b2" fresh indexed

abbrev block : MerkleBlock
block = record {
  block_id = "b1";
  events = event ∷ [];
  tree = build digest ((7 ∷ []) ∷ []);
  prev_root = [];
}

block_verified : block_verify_event digest serialize block "e1" ≡ ok true
unfolding find_event
block_verified = block_verify_event_ok digest serialize block "e1" 0 event refl refl

-- The store with both events of the session.
abbrev chained : MerkleStore
chained = log_all digest serialize (empty_store 1) history "b3"

abbrev is_late : AuditEvent → Bool
is_late e = str_eq e.event_id "e2"

replay_session-IsOrdered_example :
    IsOrdered (replay_session chained "s" none (some 9))
    × (any is_late (replay_session chained "s" none (some 9))
        ≡ any
            (λ id. passes is_late none (some 9) (get_event chained id))
            (ids_of (lookup "s" chained.session_index)))
replay_session-IsOrdered_example = replay_session-IsOrdered chained "s" none (some 9) is_late
