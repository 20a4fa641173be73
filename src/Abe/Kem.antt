-- ===== src/Abe/Kem.antt =====
-- core/crypto/abe.py: keys, encryption and decryption. HMAC, AES-GCM, the random source and the
-- encoding of texts are a record of operations. Bytes stand where the source writes them in
-- hexadecimal, and the number of the next draw is threaded through.
use Prim.Native.Char.{Char}
use Prim.Native.String.{◌++◌ as append}
use trustmem.Prelude.{
  ℕ, zero, suc, ◌+◌, ◌-◌, String, Bool, Option, none, some, List, [], ◌∷◌, ◌++◌, ◌≡◌, length,
  lookup, insert,
}
use trustmem.Prelude.Sorting.{sorted}
use trustmem.Prelude.Xor.{xor_all}
use trustmem.Abe.Access.{minimal_sets}

abbrev pub Bytes : Type 0
Bytes = List ℕ

pub record Suite : Type 0 where
  pub hmac_sha256 : Bytes → Bytes → Bytes
  pub encode : String → Bytes
  -- The draw of a number, of so many bytes.
  pub urandom : ℕ → ℕ → Bytes
  -- The key, the nonce, the text and the associated data.
  pub encrypt : Bytes → Bytes → Bytes → Bytes → Bytes
  pub decrypt : Bytes → Bytes → Bytes → Bytes → Option Bytes
  pub length-urandom : (k n : ℕ) → length (urandom k n) ≡ n
  pub decrypt-encrypt :
      (key nonce text aad : Bytes) → decrypt key nonce (encrypt key nonce text aad) aad ≡ some text

pub record AbeMasterKey : Type 0 where
  pub key_bytes : Bytes
  pub version : ℕ

pub record AbePublicKey : Type 0 where
  pub key_bytes : Bytes
  pub version : ℕ

pub record AbeAttributeKey : Type 0 where
  pub agent_id : String
  pub attributes : List String
  pub keys : List (String × Bytes)
  pub epoch : ℕ

pub record Wrapped : Type 0 where
  pub attr : String
  pub nonce : Bytes
  pub ct : Bytes

pub record Ciphertext : Type 0 where
  pub policy : String
  pub nonce : Bytes
  pub ct : Bytes
  pub wrapped : List (List Wrapped)

abbrev pub put_share : Bytes → Option (List Bytes) → Option (List Bytes)
put_share s none = none
put_share s (some shares) = some (s ∷ shares)

module _ (suite : Suite) where
  unfoldable pub kdf : Bytes → String → Bytes
  kdf master label = suite.hmac_sha256 master (suite.encode label)

  unfoldable pub attr_key : Bytes → String → Bytes
  unfolding kdf
  attr_key master attr = kdf master (append "attr:" attr)

  unfoldable pub abe_setup : ℕ → AbeMasterKey × AbePublicKey
  abe_setup draw =
      let mk_bytes = suite.urandom draw 32 in
      (record { key_bytes = mk_bytes; version = 1 }, record { key_bytes = mk_bytes; version = 1 })

  unfoldable pub fill : Bytes → List (String × Bytes) → List String → List (String × Bytes)
  unfolding attr_key insert
  fill master keys [] = keys
  fill master keys (a ∷ attributes) = fill master (insert a (attr_key master a) keys) attributes

  unfoldable pub abe_issue_key : AbeMasterKey → String → List String → ℕ → AbeAttributeKey
  unfolding fill
  abe_issue_key mk agent_id attributes epoch = record {
    agent_id = agent_id;
    attributes = attributes;
    keys = fill mk.key_bytes [] attributes;
    epoch = epoch;
  }

  unfoldable pub random_shares : ℕ → ℕ → List Bytes
  random_shares draw zero = []
  random_shares draw (suc n) = suite.urandom draw 32 ∷ random_shares (suc draw) n

  -- The shares: so many random ones, and the one that makes their exclusive or the key.
  unfoldable pub split_key : Bytes → ℕ → ℕ → List Bytes
  unfolding random_shares xor_all
  split_key cek draw extra =
      let shares = random_shares draw extra in shares ++ (xor_all cek shares ∷ [])

  -- `zip(attrs, shares)`
  unfoldable pub wrap_shares : Bytes → ℕ → List String → List Bytes → List Wrapped
  unfolding attr_key
  wrap_shares master draw [] shares = []
  wrap_shares master draw (a ∷ attrs) [] = []
  wrap_shares master draw (a ∷ attrs) (s ∷ shares) =
      let nonce = suite.urandom draw 12 in
      let w : Wrapped = record {
        attr = a;
        nonce = nonce;
        ct = suite.encrypt (attr_key master a) nonce s (suite.encode "wrap");
      } in
      w ∷ wrap_shares master (suc draw) attrs shares

  unfoldable pub wrap_minterms : Bytes → Bytes → ℕ → List (List String) → List (List Wrapped)
  unfolding split_key wrap_shares sorted
  wrap_minterms master cek draw [] = []
  wrap_minterms master cek draw (minterm ∷ minterms) =
      let attrs = sorted minterm in
      let n = length attrs in
      wrap_shares master (draw + (n - 1)) attrs (split_key cek draw (n - 1))
      ∷ wrap_minterms master cek (draw + (n - 1) + n) minterms

  -- The shares of a clause, if each of them can be unwrapped.
  unfoldable pub unwrap : List (String × Bytes) → List Wrapped → Option (List Bytes)
  unfolding lookup
  unwrap keys [] = some []
  unwrap keys (w ∷ clause) =
      let rest = unwrap keys clause in
      elim (lookup w.attr keys) [
        | none ↦ none
        | some ka ↦ elim (suite.decrypt ka w.nonce w.ct (suite.encode "wrap")) [
          | none ↦ none
          | some share ↦ put_share share rest
        ]
      ]

  -- `if ok and shares`, or else the next clause.
  abbrev pub found_or : Option (List Bytes) → Option Bytes → Option Bytes
  found_or none rest = rest
  found_or (some []) rest = rest
  found_or (some (s ∷ shares)) rest = some (xor_all s shares)

  unfoldable pub recover_cek : List (String × Bytes) → List (List Wrapped) → Option Bytes
  unfolding unwrap
  recover_cek keys [] = none
  recover_cek keys (clause ∷ wrapped) =
      let rest = recover_cek keys wrapped in found_or (unwrap keys clause) rest

  unfoldable pub abe_decrypt : AbeAttributeKey → Ciphertext → Option Bytes
  unfolding recover_cek
  abe_decrypt key c = elim (recover_cek key.keys c.wrapped) [
    | none ↦ none
    | some cek ↦ suite.decrypt cek c.nonce c.ct (suite.encode c.policy)
  ]

module _ (suite : Suite) (is_alphanumeric : Char → Bool) where
  unfoldable pub abe_encrypt : ℕ → AbePublicKey → String → String → Ciphertext
  unfolding wrap_minterms minimal_sets
  abe_encrypt draw pk plaintext policy =
      let cek = suite.urandom draw 32 in
      let nonce = suite.urandom (suc draw) 12 in
      record {
        policy = policy;
        nonce = nonce;
        ct = suite.encrypt cek nonce (suite.encode plaintext) (suite.encode policy);
        wrapped =
            wrap_minterms suite pk.key_bytes cek (draw + 2) (minimal_sets is_alphanumeric policy);
      }
