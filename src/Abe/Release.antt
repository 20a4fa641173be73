-- ===== src/Abe/Release.antt =====
-- core/crypto/abe.py: what an issued key decrypts.
use Prim.Native.Char.{Char}
use text.Mathlib.TextEquality.{eq_iff}
use trustmem.Prelude.{
  ℕ, zero, suc, ◌+◌, ◌-◌, String, Bool, true, Option, none, some, List, [], ◌∷◌, ◌≡◌, refl, sym, ap,
  all, nonempty, length, length-append, contains, lookup, insert, lookup-insert, Bool-cases, inl,
  inr, and_left, and_right, if◌then◌else◌, arith,
}
use trustmem.Prelude.Sorting.{sorted, all-sorted, nonempty-sorted}
use trustmem.Prelude.Xor.{xor, xor_all, xor_all-xor, xor_all-append, xor_cancel, length-xor}
use trustmem.Abe.Grammar.{enough}
use trustmem.Abe.Agreement.{held, unlocks}
use trustmem.Abe.Fuel.{EndsWithin, leaves, fails, or_ends}
use trustmem.Abe.Access.{family_of, minimal_sets, policy_satisfied, policy_satisfied-unlocks}
use trustmem.Abe.Tokens.{tokenize}
use trustmem.Abe.Kem.{
  Bytes, Suite, AbeMasterKey, AbePublicKey, attr_key, fill, abe_issue_key, random_shares, split_key,
  wrap_shares, wrap_minterms, unwrap, found_or, recover_cek, abe_decrypt, abe_encrypt,
}

nonempty-length : (ts : List String) → nonempty ts ≡ true → length ts ≡ suc (length ts - 1)
nonempty-length [] h = absurd (cc h)
nonempty-length (t ∷ ts) h = omega arith

ends_nonempty : {n : ℕ} {r : _} → EndsWithin n r → all nonempty (family_of r) ≡ true
ends_nonempty (leaves e h) = e
ends_nonempty fails = refl

minimal_sets-nonempty :
    (is_alphanumeric : Char → Bool) (policy : String)
    → all nonempty (minimal_sets is_alphanumeric policy) ≡ true
unfolding minimal_sets enough
minimal_sets-nonempty is_alphanumeric policy =
    let ts = tokenize is_alphanumeric policy in
    ground (arith, ends_nonempty (or_ends (enough ts) ts (omega arith)))

module _ (suite : Suite) where
  lookup-fill :
      (master : Bytes) (keys : List (String × Bytes)) (attributes : List String) (x : String)
      → lookup x (fill suite master keys attributes)
        ≡ (if contains x attributes then some (attr_key suite master x) else lookup x keys)
  unfolding fill contains
  lookup-fill master keys [] x = refl
  lookup-fill master keys (a ∷ attributes) x = ground (
    arith,
    lookup-fill master (insert a (attr_key suite master a) keys) attributes x,
    lookup-insert a x (attr_key suite master a) keys,
    eq_iff a x,
    λ (e : a ≡ x). ap (attr_key suite master) e,
  )

  length-random_shares : (draw n : ℕ) → length (random_shares suite draw n) ≡ n
  unfolding random_shares
  length-random_shares draw zero = refl
  length-random_shares draw (suc n) = ap suc (length-random_shares (suc draw) n)

  length-xor_all :
      (a : Bytes) (draw n : ℕ)
      → length a ≡ 32
      → length (xor_all a (random_shares suite draw n)) ≡ 32
  unfolding random_shares xor_all
  length-xor_all a draw zero e = e
  length-xor_all a draw (suc n) e =
      let share = suite.urandom draw 32 in
      let size = suite.length-urandom draw 32 in
      length-xor_all (xor a share) (suc draw) n
        (omega (arith, e, length-xor a share (omega (arith, e, size))))

  -- The shares of a key give it back.
  split_key-combined :
      (cek : Bytes) (draw n : ℕ) (keys : Option Bytes)
      → length cek ≡ 32
      → found_or suite (some (split_key suite cek draw n)) keys ≡ some cek
  unfolding split_key random_shares xor_all
  split_key-combined cek draw zero rest e = refl
  split_key-combined cek draw (suc n) rest e =
      let first = suite.urandom draw 32 in
      let others = random_shares suite (suc draw) n in
      let size = length-xor_all first (suc draw) n (suite.length-urandom draw 32) in
      ap some (
        rw
          (
            xor_all-append first others (xor_all (xor cek first) others),
            xor_all-xor cek first others,
          )
          (xor_cancel (xor_all first others) cek (omega (arith, e, size))))

  length-split_key : (cek : Bytes) (draw n : ℕ) → length (split_key suite cek draw n) ≡ suc n
  unfolding split_key
  length-split_key cek draw n =
      let shares = random_shares suite draw n in
      omega (arith, length-append shares (xor_all cek shares ∷ []), length-random_shares draw n)

  module _ (mk : AbeMasterKey) (agent_id : String) (attributes : List String) (epoch : ℕ) where
    abbrev keys : List (String × Bytes)
    keys = (abe_issue_key suite mk agent_id attributes epoch).keys

    unwrap-wrap_shares :
        (draw : ℕ) (attrs : List String) (shares : List Bytes)
        → length attrs ≡ length shares
        → unwrap suite keys (wrap_shares suite mk.key_bytes draw attrs shares)
          ≡ (if all (held attributes) attrs then some shares else none)
    unfolding unwrap wrap_shares abe_issue_key
    unwrap-wrap_shares draw [] [] e = refl
    unwrap-wrap_shares draw [] (s ∷ shares) e = absurd (omega (arith, e))
    unwrap-wrap_shares draw (a ∷ attrs) [] e = absurd (omega (arith, e))
    unwrap-wrap_shares draw (a ∷ attrs) (s ∷ shares) e = ground (
      arith,
      lookup-fill mk.key_bytes [] attributes a,
      unwrap-wrap_shares (suc draw) attrs shares (omega (arith, e)),
      suite.decrypt-encrypt (attr_key suite mk.key_bytes a) (suite.urandom draw 12) s
          (suite.encode "wrap"),
    )

    clause_found :
        (cek : Bytes) (draw n : ℕ) (attrs : List String) (rest : Option Bytes)
        → length cek ≡ 32
        → length attrs ≡ suc n
        → found_or suite
            (unwrap suite keys
              (wrap_shares suite mk.key_bytes (draw + n) attrs (split_key suite cek draw n)))
            rest
          ≡ (if all (held attributes) attrs then some cek else rest)
    clause_found cek draw n attrs rest e size =
        let same_length : length attrs ≡ length (split_key suite cek draw n) =
          omega (arith, size, length-split_key cek draw n) in
        let opened = unwrap-wrap_shares (draw + n) attrs (split_key suite cek draw n) same_length in
        rw opened (elim (Bool-cases (all (held attributes) attrs)) [
          | inl b ↦ rw b (split_key-combined cek draw n rest e)
          | inr b ↦ rw b refl
        ])

    recover_cek-wrap_minterms :
        (cek : Bytes) (draw : ℕ) (minterms : List (List String))
        → length cek ≡ 32
        → all nonempty minterms ≡ true
        → recover_cek suite keys (wrap_minterms suite mk.key_bytes cek draw minterms)
          ≡ (if unlocks attributes minterms then some cek else none)
    unfolding recover_cek wrap_minterms
    recover_cek-wrap_minterms cek draw [] e h = refl
    recover_cek-wrap_minterms cek draw (m ∷ minterms) e h =
        let left = and_left (nonempty m) (all nonempty minterms) h in
        let extra = length (sorted m) - 1 in
        let next = draw + extra + length (sorted m) in
        let rest = recover_cek suite keys (wrap_minterms suite mk.key_bytes cek next minterms) in
        let size : length (sorted m) ≡ suc extra =
          nonempty-length (sorted m) (rw (nonempty-sorted m) left) in
        ground (
          arith,
          clause_found cek draw extra (sorted m) rest e size,
          all-sorted (held attributes) m,
          recover_cek-wrap_minterms cek next minterms e
              (and_right (nonempty m) (all nonempty minterms) h),
        )

  module _ (is_alphanumeric : Char → Bool) (mk : AbeMasterKey) (pk : AbePublicKey) where
    -- A key that was issued for a list of attributes with the bytes that a text was encrypted with
    -- decrypts it exactly when the attributes satisfy the policy, and then to the text: whatever
    -- the policy, the draws and the subject of the key.
    pub abe_decrypt-abe_encrypt :
        (agent_id : String) (attributes : List String) (epoch draw : ℕ) (plaintext policy : String)
        → mk.key_bytes ≡ pk.key_bytes
        → abe_decrypt suite
            (abe_issue_key suite mk agent_id attributes epoch)
            (abe_encrypt suite is_alphanumeric draw pk plaintext policy)
          ≡ (if policy_satisfied is_alphanumeric policy attributes
              then some (suite.encode plaintext)
              else none)
    unfolding abe_decrypt abe_encrypt
    abe_decrypt-abe_encrypt agent_id attributes epoch draw plaintext policy same_bytes =
        let cek = suite.urandom draw 32 in
        let minterms = minimal_sets is_alphanumeric policy in
        let recovered =
          recover_cek-wrap_minterms mk agent_id attributes epoch cek (draw + 2) minterms
            (suite.length-urandom draw 32) (minimal_sets-nonempty is_alphanumeric policy) in
        let satisfied = policy_satisfied-unlocks is_alphanumeric attributes policy in
        let opened =
          suite.decrypt-encrypt cek (suite.urandom (suc draw) 12) (suite.encode plaintext)
            (suite.encode policy) in
        rw (sym same_bytes, satisfied) (ground (arith, recovered, opened))
