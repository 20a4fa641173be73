-- ===== src/Upgrader/Endorser.antt =====
-- core/endorser.py: a person's endorsement of a conclusion, signed, upgraded and stored. The
-- signature scheme is a record of operations, with the key pair inside, and the calls of the memory
-- store are kept in order.
use trustmem.Prelude.{
  ltb, String, Bool, true, false, Option, none, some, List, [], ◌∷◌, ◌++◌, ◌≡◌, not, str_eq,
  if◌then◌else◌, arith,
}
use trustmem.Labels.{MemoryLabel, t3_high}
use trustmem.Labels.Lattice.{trust_level}
use trustmem.Upgrader.{
  Evidence, human, Externals, Upgrader, UpgradeResult, grant, conclude, refusal, derive_chunk,
  try_upgrade,
}

pub record SignatureScheme : Type 0 where
  pub sign : String → String
  pub verify : String → String → Bool
  pub verify-sign : (text : String) → verify (sign text) text ≡ true
  pub sign-nonempty : (text : String) → str_eq (sign text) "" ≡ false

module _ (ex : Externals) (scheme : SignatureScheme) where
  abbrev plain_upgrader : Upgrader ex
  plain_upgrader = record { registry = none; chunk_lookup = none }

  abbrev endorsement : MemoryLabel → Evidence
  endorsement mem = record {
    etype = human;
    source_urls = [];
    consistent = true;
    validator = "";
    matched_chunks = [];
    human_signature = scheme.sign mem.chunk_id;
  }

  module _ (Ciphertext : Type 0) where
    -- `put`, if there is a version.
    abbrev put :
        List (MemoryLabel × Ciphertext)
        → Option MemoryLabel
        → Ciphertext
        → List (MemoryLabel × Ciphertext)
    put store none ct = store
    put store (some chunk) ct = store ++ ((chunk, ct) ∷ [])

    unfoldable pub endorse :
        List (MemoryLabel × Ciphertext)
        → MemoryLabel
        → Ciphertext
        → String
        → Option UpgradeResult × List (MemoryLabel × Ciphertext)
    unfolding try_upgrade
    endorse store mem ct suffix =
        let result =
          try_upgrade ex plain_upgrader mem (endorsement mem) (some scheme.verify) none suffix in
        if not result.applied then (none, store) else (some result, put store result.new_chunk ct)

    -- An endorsement of a memory below T3 stores one more memory, the version at T3 that names the
    -- original, and leaves the stored ones; at T3 it stores nothing and gives no result.
    pub endorse_stores :
        (store : List (MemoryLabel × Ciphertext)) (mem : MemoryLabel) (ct : Ciphertext)
        (suffix : String)
        → (endorse store mem ct suffix).1 ≡ (
            if ltb (trust_level mem.provenance_trust) 3
            then store ++ ((derive_chunk ex mem t3_high suffix, ct) ∷ [])
            else store)
    unfolding endorse grant conclude refusal trust_level
    endorse_stores store mem ct suffix =
        ground (arith, scheme.verify-sign mem.chunk_id, scheme.sign-nonempty mem.chunk_id)
