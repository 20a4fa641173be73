-- ===== src/Crypto.antt =====
-- ifc/crypto_client.py: the ledger of decisions and the client that decrypts. The engine behind it
-- is an argument, and may raise; the call is counted before the engine is asked.
use trustmem.Prelude.{
  ℕ, suc, String, Bool, true, false, Option, none, some, List, [], if◌then◌else◌, lookup, insert,
  add,
}
use trustmem.Result.{Result, raise, permission_error}
use trustmem.Labels.{AgentLabel}

pub record CryptoClient : Type 0 where
  pub ledger : List (String × String)
  pub decrypt_count : ℕ
  pub decrypted_ids : List String

abbrev pub new_client : CryptoClient
new_client = record { ledger = []; decrypt_count = 0; decrypted_ids = [] }

unfoldable pub record_allow : CryptoClient → String → String → CryptoClient
record_allow c decision_id chunk_id = record c { ledger = insert decision_id chunk_id c.ledger }

unfoldable pub is_allowed : CryptoClient → String → Bool
is_allowed c decision_id = elim (lookup decision_id c.ledger) [
  | none ↦ false
  | some chunk_id ↦ true
]

-- `decrypted_ids.add(chunk_id)`, which the pipeline does.
unfoldable pub mark_decrypted : CryptoClient → String → CryptoClient
mark_decrypted c chunk_id = record c { decrypted_ids = add chunk_id c.decrypted_ids }

unfoldable pub reset_count : CryptoClient → CryptoClient
reset_count c = record c { decrypt_count = 0; decrypted_ids = [] }

module _ {Ciphertext Plaintext : Type 0}
    (decrypt_memory : AgentLabel → Option Ciphertext → Result (Option Plaintext × String)) where
  unfoldable pub decrypt :
      CryptoClient
      → AgentLabel
      → Option Ciphertext
      → String
      → CryptoClient × Result (Option Plaintext × String)
  decrypt c agent ct decision_id =
      if is_allowed c decision_id
      then (record c { decrypt_count = suc c.decrypt_count }, decrypt_memory agent ct)
      else (c, raise permission_error)
