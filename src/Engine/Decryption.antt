-- ===== src/Engine/Decryption.antt =====
-- core/crypto/engine.py: who decrypts what, and what is logged.
use Prim.Native.Char.{Char}
use text.Mathlib.TextEquality.{eq_iff}
use trustmem.Prelude.{
  ℕ, String, Bool, true, false, ◌&&◌, Option, none, some, List, [], ◌∷◌, ◌++◌, ◌≡◌, refl, contains,
  lookup, lookup-insert, ◌==◌, Option-cases, inl, inr, if◌then◌else◌, arith,
}
use trustmem.Labels.{AgentLabel, MemoryLabel}
use trustmem.Labels.Lattice.{clearance_leb}
use trustmem.Topology.{Networkx}
use trustmem.Pdp.Hard.{layer_readable}
use trustmem.Abe.Access.{policy_satisfied}
use trustmem.Abe.Kem.{Bytes, Suite, AbeAttributeKey, Ciphertext, abe_issue_key, abe_encrypt}
use trustmem.Abe.Release.{abe_decrypt-abe_encrypt}
use trustmem.Policy.Clauses.{policy_from_label}
use trustmem.Policy.Attributes.{agent_attributes}
use trustmem.Policy.Texts.{IsNamed}
use trustmem.Policy.Values.{grouped}
use trustmem.Policy.Enforcement.{policy_satisfied_exactly}
use trustmem.Engine.{
  Outcome, no_key, unsatisfied, decrypted, DecryptEntry, CryptoEngine, remove, register_agent,
  revoke_agent, is_decrypted, answer_for, log_decrypt, encrypt_memory, decrypt_with, decrypt_memory,
}

lookup-remove : {V : Type 0} (k : String) (m : List (String × V)) → lookup k (remove k m) ≡ none
unfolding lookup remove
lookup-remove k [] = refl
lookup-remove k ((j, v) ∷ m) = ground (arith, lookup-remove k m)

module _ (nx : Networkx) (suite : Suite) (is_alphanumeric : Char → Bool) where
  decrypt_with_issued :
      (e : CryptoEngine nx) (agent : AgentLabel) (draw : ℕ) (content policy : String)
      → e.abe_mk.key_bytes ≡ e.abe_pk.key_bytes
      → decrypt_with nx suite is_alphanumeric
          (abe_issue_key suite e.abe_mk agent.agent_id
            (agent_attributes nx agent e.topo)
            agent.epoch)
          (abe_encrypt suite is_alphanumeric draw e.abe_pk content policy)
        ≡ (if policy_satisfied is_alphanumeric policy (agent_attributes nx agent e.topo)
            then (some (suite.encode content), decrypted)
            else (none, unsatisfied))
  unfolding decrypt_with abe_issue_key abe_encrypt
  decrypt_with_issued e agent draw content policy same =
      let attrs = agent_attributes nx agent e.topo in
      ground (
        arith,
        abe_decrypt-abe_encrypt suite is_alphanumeric e.abe_mk e.abe_pk agent.agent_id attrs
            agent.epoch draw content policy same,
      )

  -- In an engine whose two keys are one, where the names in a memory's label are words: an agent
  -- that has just been registered decrypts what was encrypted for the memory, to the text, exactly
  -- when its clearance, tasks, groups, position and epoch fit the memory's label; otherwise the
  -- answer is that its attributes do not satisfy the policy.
  pub register-decrypt_memory :
      (e : CryptoEngine nx) (agent : AgentLabel) (mem : MemoryLabel) (draw : ℕ) (content : String)
      → e.abe_mk.key_bytes ≡ e.abe_pk.key_bytes
      → IsNamed is_alphanumeric mem
      → (decrypt_memory nx suite is_alphanumeric
          ((register_agent nx suite e agent).1)
          agent
          (some (encrypt_memory nx suite is_alphanumeric e draw content mem))).0
        ≡ (if clearance_leb mem.sensitivity agent.clearance
              && (contains mem.task_binding agent.task_domain
                  && (grouped nx agent e.topo mem.layer mem
                      && (layer_readable nx e.topo agent mem && agent.epoch == mem.epoch)))
            then (some (suite.encode content), decrypted)
            else (none, unsatisfied))
  unfolding decrypt_memory answer_for register_agent encrypt_memory
  register-decrypt_memory e agent mem draw content same named =
      let attrs = agent_attributes nx agent e.topo in
      let key = abe_issue_key suite e.abe_mk agent.agent_id attrs agent.epoch in
      ground (
        arith,
        lookup-insert agent.agent_id agent.agent_id key e.agent_keys,
        eq_iff agent.agent_id agent.agent_id,
        decrypt_with_issued e agent draw content (policy_from_label mem) same,
        policy_satisfied_exactly nx agent e.topo is_alphanumeric mem named,
      )

  -- An agent whose key was revoked decrypts nothing.
  pub revoke-decrypt_memory :
      (e : CryptoEngine nx) (agent : AgentLabel) (ct : Ciphertext)
      → (decrypt_memory nx suite is_alphanumeric
          (revoke_agent nx suite e agent.agent_id)
          agent
          (some ct)).0
        ≡ (none, no_key)
  unfolding decrypt_memory answer_for revoke_agent
  revoke-decrypt_memory e agent ct = rw (answer_for, lookup-remove agent.agent_id e.agent_keys) refl

  abbrev has_text : Option Bytes → Bool
  has_text none = false
  has_text (some text) = true

  abbrev policy_of : Option Ciphertext → String
  policy_of none = "<none>"
  policy_of (some ct) = ct.policy

  -- What a decryption adds to the log, by its answer.
  abbrev entry_for : AgentLabel → Option Ciphertext → Option Bytes × Outcome → DecryptEntry
  entry_for agent ct answer = record {
    agent_id = agent.agent_id;
    policy = policy_of ct;
    allowed = has_text (answer.0);
    reason = answer.1;
  }

  decrypt_with_answer :
      (key : AbeAttributeKey) (ct : Ciphertext)
      → is_decrypted nx suite is_alphanumeric ((decrypt_with nx suite is_alphanumeric key ct).1)
        ≡ has_text ((decrypt_with nx suite is_alphanumeric key ct).0)
  unfolding decrypt_with
  decrypt_with_answer key ct = ground arith

  answer_marked :
      (e : CryptoEngine nx) (agent : AgentLabel) (ct : Ciphertext)
      → is_decrypted nx suite is_alphanumeric ((answer_for nx suite is_alphanumeric e agent ct).1)
        ≡ has_text ((answer_for nx suite is_alphanumeric e agent ct).0)
  unfolding answer_for
  answer_marked e agent ct = elim (Option-cases (lookup agent.agent_id e.agent_keys)) [
    | inl missing ↦ rw (answer_for, missing) refl
    | inr (key, found) ↦ ground (arith, found, decrypt_with_answer key ct)
  ]

  -- Each decryption changes nothing of the engine but that it adds one entry to the log, under the
  -- agent's name and the ciphertext's policy, with the reason of the answer, marked as allowed
  -- exactly when the answer has a text.
  pub decrypt_memory_logged :
      (e : CryptoEngine nx) (agent : AgentLabel) (ct : Option Ciphertext)
      → (decrypt_memory nx suite is_alphanumeric e agent ct).1 ≡ record e {
        decrypt_log =
            e.decrypt_log
            ++ (entry_for agent ct ((decrypt_memory nx suite is_alphanumeric e agent ct).0) ∷ []);
      }
  unfolding decrypt_memory log_decrypt
  decrypt_memory_logged e agent none = refl
  decrypt_memory_logged e agent (some ct) = rw (answer_marked e agent ct) refl
