-- ===== src/Engine.antt =====
-- core/crypto/engine.py: the keys that the authority issues, and encryption and decryption of
-- memories. The encrypted vectors are left out, and the time stamps and the prose of the log.
pub mod Decryption
use Prim.Native.Char.{Char}
use Prim.Native.String.{◌++◌ as append}
use trustmem.Prelude.{
  ℕ, zero, suc, String, Bool, true, false, Option, none, some, List, [], ◌∷◌, ◌++◌, map, ltb,
  lookup, insert, str_eq, ◌==◌, not, if◌then◌else◌,
}
use trustmem.Prelude.Sorting.{sorted}
use trustmem.Labels.{AgentLabel, MemoryLabel}
use trustmem.Topology.{Networkx, Topology}
use trustmem.Abe.Access.{policy_satisfied}
use trustmem.Abe.Kem.{
  Bytes, Suite, AbeMasterKey, AbePublicKey, AbeAttributeKey, Ciphertext, abe_setup, abe_issue_key,
  abe_encrypt, abe_decrypt,
}
use trustmem.Policy.Words.{attribute, has_clearance, has_role, on_task, at_epoch, in_group}
use trustmem.Policy.Digits.{decimal}
use trustmem.Policy.Clauses.{policy_from_label}
use trustmem.Policy.Attributes.{agent_attributes}

-- Why a decryption is refused, or that it succeeded.
pub data Outcome : Type 0 where
  no_ciphertext no_key stale_key unsatisfied undecryptable decrypted : Outcome

pub record DecryptEntry : Type 0 where
  pub agent_id : String
  pub policy : String
  pub allowed : Bool
  pub reason : Outcome

module _ (nx : Networkx) where
  pub record CryptoEngine : Type 0 where
    pub topo : Topology nx
    pub abe_mk : AbeMasterKey
    pub abe_pk : AbePublicKey
    pub agent_keys : List (String × AbeAttributeKey)
    pub human_keys : List (ℕ × AbeAttributeKey)
    pub decrypt_log : List DecryptEntry

-- `pop(k, None)`
unfoldable pub remove : {V : Type 0} → String → List (String × V) → List (String × V)
remove k [] = []
remove k ((j, v) ∷ m) = let rest = remove k m in if str_eq j k then rest else (j, v) ∷ rest

-- `_human_keys.get`
unfoldable pub key_at : ℕ → List (ℕ × AbeAttributeKey) → Option AbeAttributeKey
key_at n [] = none
key_at n ((m, key) ∷ keys) = if m == n then some key else key_at n keys

module _ (nx : Networkx) (suite : Suite) where
  unfoldable pub new_engine : ℕ → Topology nx → CryptoEngine nx
  unfolding abe_setup
  new_engine draw topo = record {
    topo = topo;
    abe_mk = (abe_setup suite draw).0;
    abe_pk = (abe_setup suite draw).1;
    agent_keys = [];
    human_keys = [];
    decrypt_log = [];
  }

  unfoldable pub register_agent : CryptoEngine nx → AgentLabel → AbeAttributeKey × CryptoEngine nx
  unfolding abe_issue_key agent_attributes insert
  register_agent e agent =
      let attrs = agent_attributes nx agent e.topo in
      let key = abe_issue_key suite e.abe_mk agent.agent_id attrs agent.epoch in
      (key, record e { agent_keys = insert agent.agent_id key e.agent_keys })

  unfoldable pub revoke_agent : CryptoEngine nx → String → CryptoEngine nx
  unfolding remove
  revoke_agent e agent_id = record e { agent_keys = remove agent_id e.agent_keys }

  unfoldable pub reviewer_attributes : String → List String → ℕ → ℕ → List String
  unfolding attribute decimal sorted
  reviewer_attributes task_id collab_group epoch lvl =
      (attribute has_clearance (decimal lvl)
        ∷ attribute has_role "Auditor"
        ∷ attribute on_task task_id
        ∷ attribute at_epoch (decimal epoch)
        ∷ [])
      ++ map (attribute in_group) (sorted collab_group)

  unfoldable pub register_human_reviewer :
      CryptoEngine nx → String → List String → ℕ → CryptoEngine nx
  unfolding abe_issue_key reviewer_attributes decimal
  register_human_reviewer e task_id collab_group epoch =
      let key : ℕ → AbeAttributeKey = λ lvl.
        abe_issue_key suite e.abe_mk (append "human-L" (decimal lvl))
          (reviewer_attributes task_id collab_group epoch lvl) epoch in
      record e { human_keys = (0, key 0) ∷ (1, key 1) ∷ (2, key 2) ∷ (3, key 3) ∷ [] }

  unfoldable pub log_decrypt : CryptoEngine nx → String → String → Outcome → Bool → CryptoEngine nx
  log_decrypt e agent_id policy reason allowed =
      let entry : DecryptEntry = record {
        agent_id = agent_id;
        policy = policy;
        allowed = allowed;
        reason = reason;
      } in
      record e { decrypt_log = e.decrypt_log ++ (entry ∷ []) }

module _ (nx : Networkx) (suite : Suite) (is_alphanumeric : Char → Bool) where
  unfoldable pub encrypt_memory : CryptoEngine nx → ℕ → String → MemoryLabel → Ciphertext
  unfolding abe_encrypt policy_from_label
  encrypt_memory e draw content mem =
      abe_encrypt suite is_alphanumeric draw e.abe_pk content (policy_from_label mem)

  -- The checks on a key, and the decryption with it.
  unfoldable pub decrypt_with : AbeAttributeKey → Ciphertext → Option Bytes × Outcome
  unfolding policy_satisfied abe_decrypt
  decrypt_with key ct =
      if not (policy_satisfied is_alphanumeric ct.policy key.attributes)
      then (none, unsatisfied)
      else elim (abe_decrypt suite key ct) [
        | none ↦ (none, undecryptable)
        | some plain ↦ (some plain, decrypted)
      ]

  unfoldable pub decrypt_as_human : CryptoEngine nx → ℕ → Option Ciphertext → Option Bytes × Outcome
  unfolding decrypt_with key_at
  decrypt_as_human e clearance none = (none, no_ciphertext)
  decrypt_as_human e clearance (some ct) = elim (key_at clearance e.human_keys) [
    | none ↦ (none, no_key)
    | some key ↦ decrypt_with key ct
  ]

  abbrev pub is_decrypted : Outcome → Bool
  is_decrypted decrypted = true
  is_decrypted reason = false

  -- The answer for a ciphertext, by the key of the agent.
  unfoldable pub answer_for : CryptoEngine nx → AgentLabel → Ciphertext → Option Bytes × Outcome
  unfolding decrypt_with lookup
  answer_for e agent ct = elim (lookup agent.agent_id e.agent_keys) [
    | none ↦ (none, no_key)
    | some key ↦ if ltb key.epoch agent.epoch then (none, stale_key) else decrypt_with key ct
  ]

  unfoldable pub decrypt_memory :
      CryptoEngine nx → AgentLabel → Option Ciphertext → (Option Bytes × Outcome) × CryptoEngine nx
  unfolding answer_for log_decrypt
  decrypt_memory e agent none =
      ((none, no_ciphertext), log_decrypt nx suite e agent.agent_id "<none>" no_ciphertext false)
  decrypt_memory e agent (some ct) =
      let answer = answer_for e agent ct in
      (answer, log_decrypt nx suite e agent.agent_id ct.policy (answer.1) (is_decrypted (answer.1)))
