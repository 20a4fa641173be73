-- ===== src/Audit/Integrity.antt =====
-- What verifying an event shows: a block that holds the tree of its events verifies each of them,
-- and a block whose events were altered afterwards does not.
use trustmem.Prelude.{
  ℕ, zero, suc, ◌≡◌, ◌⊎◌, refl, ap, ◌∙◌, String, true, Option, none, some, List, [], ◌∷◌, map,
  length, get_elem?, arith, Option-cases, inl, inr, str_eq, Bool-cases,
}
use trustmem.Result.{Result, ok, raise, ◌>>=◌}
use trustmem.Merkle.{
  Bytes, MerkleProof, MerkleTree, leaf_hash, build, proof, verify_with_leaf_hash, verify_leaf,
}
use trustmem.Merkle.Paths.{proof_verifies}
use trustmem.Merkle.Soundness.{Member, Collision, verify_leaf_sound}
use trustmem.Audit.{
  AuditEvent, MerkleBlock, find_event, next_position, proof_checks, block_verify_event,
}

next_position-some :
    (o : Option (ℕ × AuditEvent)) (i : ℕ) (e : AuditEvent)
    → next_position o ≡ some (i, e)
    → (j : ℕ) × (o ≡ some (j, e)) × (i ≡ suc j)
next_position-some none i e h = absurd (cc h)
next_position-some (some (j, x)) i e h = (j, ground arith, ground arith)

find_event-get_elem? :
    (es : List AuditEvent) (id : String) (i : ℕ) (e : AuditEvent)
    → find_event es id ≡ some (i, e)
    → get_elem? es i ≡ some e
unfolding find_event
find_event-get_elem? [] id i e h = cc
find_event-get_elem? (x ∷ es) id i e h = elim (Bool-cases (str_eq x.event_id id)) [
  | inl hit ↦ ground arith
  | inr miss ↦
      let (j, found, at) = next_position-some (find_event es id) i e (ground arith) in
      rw at (find_event-get_elem? es id j e found)
]

get_elem?-map :
    {A B : Type 0} (f : A → B) (xs : List A) (i : ℕ) {a : A}
    → get_elem? xs i ≡ some a
    → get_elem? (map f xs) i ≡ some (f a)
get_elem?-map f [] i e = cc
get_elem?-map f (x ∷ xs) zero e = cc
get_elem?-map f (x ∷ xs) (suc i) e = get_elem?-map f xs i e

proof-root : (t : MerkleTree) (i : ℕ) (q : MerkleProof) → proof t i ≡ ok (some q) → q.root ≡ t.root
unfolding proof
proof-root t i q h = ground arith

module _ (sha256 : Bytes → Bytes) (serialize : AuditEvent → Bytes) where
  verified :
      (t : MerkleTree) (i : ℕ) (e : AuditEvent)
      → (proof t i >>= (λ p. ok (proof_checks sha256 serialize p e))) ≡ ok true
      → (q : MerkleProof) × (proof t i ≡ ok (some q))
        × (verify_with_leaf_hash sha256 q (leaf_hash sha256 (serialize e)) ≡ true)
  verified t i e h = go (proof t i) refl h
    where
      go :
          (r : Result (Option MerkleProof))
          → proof t i ≡ r
          → (r >>= (λ p. ok (proof_checks sha256 serialize p e))) ≡ ok true
          → (q : MerkleProof) × (proof t i ≡ ok (some q))
            × (verify_with_leaf_hash sha256 q (leaf_hash sha256 (serialize e)) ≡ true)
      go (ok (some q)) made k = (q, made, ground arith)
      go (ok none) made k = absurd (cc k)
      go (raise x) made k = absurd (cc k)

  -- The block holds the tree of its own events.
  abbrev pub IsWhole : MerkleBlock → Type 0
  IsWhole b = b.tree ≡ build sha256 (map serialize b.events)

  -- A block that holds the tree of its events verifies every event that it contains.
  pub block_verify_event_ok :
      (b : MerkleBlock) (id : String) (i : ℕ) (e : AuditEvent)
      → IsWhole b
      → find_event b.events id ≡ some (i, e)
      → block_verify_event sha256 serialize b id ≡ ok true
  unfolding block_verify_event
  block_verify_event_ok b id i e w f =
      let at = get_elem?-map serialize b.events i (find_event-get_elem? b.events id i e f) in
      let (p, made, good, _, _, _) = proof_verifies sha256 (map serialize b.events) i at in
      let checks : verify_with_leaf_hash sha256 p (leaf_hash sha256 (serialize e)) ≡ true =
        unfold verify_leaf in good in
      ground (arith, f, w, made, checks)

  -- If the tree of a block was built over other texts than its events serialize to, then an event
  -- that still verifies is one of these texts, or two inputs of the hash collide: altering an event
  -- of a committed block is detected.
  pub block_verify_event_sound :
      (size : (d : Bytes) → length (sha256 d) ≡ 32) (b : MerkleBlock) (leaves : List Bytes)
      (id : String)
      → b.tree ≡ build sha256 leaves
      → block_verify_event sha256 serialize b id ≡ ok true
      → (e : AuditEvent) × (i : ℕ) × (find_event b.events id ≡ some (i, e))
        × (Member (serialize e) leaves ⊎ Collision sha256)
  unfolding block_verify_event
  block_verify_event_sound size b leaves id t h = elim (Option-cases (find_event b.events id)) [
    | inl missing ↦ absurd (ground arith)
    | inr ((i, e), found) ↦
        let (q, made, good) = verified b.tree i e (ground (arith, found)) in
        (
          e,
          i,
          found,
          verify_leaf_sound sha256 size leaves (serialize e) q
              (proof-root b.tree i q made ∙ ap (λ (x : MerkleTree). x.root) t)
              (unfold verify_leaf in good),
        )
  ]
