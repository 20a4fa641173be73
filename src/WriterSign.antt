-- ===== src/WriterSign.antt =====
-- ifc/writer_sign.py: the signature of a written memory and its check on reading. ECDSA, the digest
-- and the canonical JSON are a record of operations; key files are left out.
use text.Mathlib.TextEquality.{eq_iff}
use trustmem.Prelude.{
  ℕ, String, Bool, true, false, Option, none, some, List, ◌≡◌, refl, lookup, insert, lookup-insert,
  str_eq, if◌then◌else◌, arith,
}
use trustmem.Result.{Result, ok, raise, value_error, not_implemented, attribute_error, ◌>>=◌}
use trustmem.Labels.{MemoryLabel, Layer}
use trustmem.Labels.Lattice.{clearance_level, trust_level}

abbrev pub Bytes : Type 0
Bytes = List ℕ

pub record CanonicalPayload : Type 0 where
  pub chunk_id : String
  pub sensitivity : ℕ
  pub provenance_trust : ℕ
  pub layer : Layer
  pub owner_agent : String
  pub task_binding : String
  pub provenance_chain : List String
  pub epoch : ℕ
  pub ciphertext_digest : Bytes

pub record Ecdsa : Type 1 where
  pub PrivateKey : Type 0
  pub PublicKey : Type 0
  pub public_key : PrivateKey → PublicKey
  pub sha256 : Bytes → Bytes
  -- `json.dumps(…, sort_keys=True, …).encode("utf-8")`
  pub dumps : CanonicalPayload → Bytes
  pub sign : Bytes → PrivateKey → Bytes
  pub verify : Bytes → Bytes → PublicKey → Bool
  pub verify-sign :
      (payload : Bytes) (key : PrivateKey)
      → verify payload (sign payload key) (public_key key) ≡ true

module _ (ec : Ecdsa) where
  unfoldable pub canonical_payload : MemoryLabel → Bytes → Bytes
  canonical_payload mem ct_bytes =
      let payload : CanonicalPayload = record {
        chunk_id = mem.chunk_id;
        sensitivity = clearance_level mem.sensitivity;
        provenance_trust = trust_level mem.provenance_trust;
        layer = mem.layer;
        owner_agent = mem.owner_agent;
        task_binding = mem.task_binding;
        provenance_chain = mem.provenance_chain;
        epoch = mem.epoch;
        ciphertext_digest = ec.sha256 ct_bytes;
      } in
      ec.dumps payload

  -- The choice of the backend, around what it computes.
  unfoldable pub by_backend : {V : Type 0} → String → V → Result V
  by_backend backend value =
      if str_eq backend "ecdsa"
      then ok value
      else if str_eq backend "sm2"
      then raise not_implemented
      else raise value_error

  pub record MemorySigner : Type 0 where
    pub priv_key : Option ec.PrivateKey
    pub public_key : Option ec.PublicKey
    pub backend : String
    pub store : List (String × Bytes)

  unfoldable pub new_signer : Option ec.PrivateKey → String → List (String × Bytes) → MemorySigner
  new_signer none backend store = record {
    priv_key = none;
    public_key = none;
    backend = backend;
    store = store;
  }
  new_signer (some key) backend store = record {
    priv_key = some key;
    public_key = some (ec.public_key key);
    backend = backend;
    store = store;
  }

  -- `priv_key.sign` of no key raises, once the backend is chosen.
  unfoldable pub signature : Option ec.PrivateKey → String → Bytes → Result Bytes
  unfolding by_backend
  signature none backend payload = by_backend backend payload >>= λ _. raise attribute_error
  signature (some key) backend payload = by_backend backend (ec.sign payload key)

  unfoldable pub sign : MemorySigner → MemoryLabel → Bytes → Result (Bytes × MemorySigner)
  unfolding canonical_payload signature insert
  sign s mem ct_bytes = signature s.priv_key s.backend (canonical_payload mem ct_bytes) >>= λ sig.
      ok (sig, record s { store = insert mem.chunk_id sig s.store })

  abbrev check_signature : String → Option Bytes → Option ec.PublicKey → Bytes → Result Bool
  check_signature backend none key payload = ok false
  check_signature backend (some sig) none payload = ok false
  check_signature backend (some sig) (some key) payload =
      by_backend backend (ec.verify payload sig key)

  unfoldable pub verify : MemorySigner → MemoryLabel → Bytes → Result Bool
  unfolding canonical_payload by_backend lookup
  verify s mem ct_bytes =
      check_signature s.backend (lookup mem.chunk_id s.store) s.public_key
        (canonical_payload mem ct_bytes)

  -- A signer that was made with a key and signs by ECDSA: what it signs, it verifies, and its answer
  -- on every memory with another identifier stays the same.
  pub sign-verify :
      (key : ec.PrivateKey) (store : List (String × Bytes)) (mem : MemoryLabel) (ct_bytes : Bytes)
      → (signer : MemorySigner) × (sig : Bytes) × (sign
            (new_signer (some key) "ecdsa" store)
            mem
            ct_bytes
          ≡ ok (sig, signer))
        × (verify signer mem ct_bytes ≡ ok true)
        × ((other : MemoryLabel) (ct : Bytes)
            → verify signer other ct ≡ (
                if str_eq mem.chunk_id other.chunk_id
                then by_backend "ecdsa"
                    (ec.verify (canonical_payload other ct) sig (ec.public_key key))
                else verify (new_signer (some key) "ecdsa" store) other ct))
  unfolding sign verify signature by_backend new_signer
  sign-verify key store mem ct_bytes =
      let payload = canonical_payload mem ct_bytes in
      let sig = ec.sign payload key in
      (
        record (new_signer (some key) "ecdsa" store) { store = insert mem.chunk_id sig store },
        sig,
        refl,
        ground (
          arith,
          lookup-insert mem.chunk_id mem.chunk_id sig store,
          eq_iff mem.chunk_id mem.chunk_id,
          ec.verify-sign payload key,
        ),
        λ other ct. ground (arith, lookup-insert mem.chunk_id other.chunk_id sig store),
      )

  -- The answer does not depend on the fields that are not signed: the kind of memory, the group, the
  -- life cycle, the end of life, the declassification, and what it was upgraded or derived from.
  pub verify_unsigned_fields :
      (s : MemorySigner) (mem forged : MemoryLabel) (ct_bytes : Bytes)
      → verify s
          (record forged {
            chunk_id = mem.chunk_id;
            sensitivity = mem.sensitivity;
            provenance_trust = mem.provenance_trust;
            layer = mem.layer;
            owner_agent = mem.owner_agent;
            task_binding = mem.task_binding;
            provenance_chain = mem.provenance_chain;
            epoch = mem.epoch;
          })
          ct_bytes
        ≡ verify s mem ct_bytes
  unfolding verify canonical_payload
  verify_unsigned_fields s mem forged ct_bytes = refl
