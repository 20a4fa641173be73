-- ===== src/Merkle.antt =====
-- core/merkle.py: the hash tree and its proofs. Bytes are numbers; SHA-256 is the section's
-- parameter `sha256`. An index is a number, so the branch for a negative one has no counterpart.
pub mod Paths
pub mod Soundness
use trustmem.Prelude.{
  ℕ, zero, suc, ◌+◌, ◌-◌, ◌/◌, ◌%◌, Bool, true, false, Option, none, some, List, [], ◌∷◌, ◌++◌, map,
  ltb, ◌==◌, if◌then◌else◌, length, get_elem?, nonempty,
}
use trustmem.Result.{Result, ok, raise, index_error, ◌>>=◌}

abbrev pub Bytes : Type 0
Bytes = List ℕ

-- `a == b`
unfoldable pub bytes_eq : Bytes → Bytes → Bool
bytes_eq [] [] = true
bytes_eq [] (y ∷ ys) = false
bytes_eq (x ∷ xs) [] = false
bytes_eq (x ∷ xs) (y ∷ ys) = if x == y then bytes_eq xs ys else false

-- A sibling, and whether it stands on the left.
abbrev pub Sibling : Type 0
Sibling = Bytes × Bool

pub record MerkleProof : Type 0 where
  pub leaf_hash : Bytes
  pub siblings : List Sibling
  pub root : Bytes
  pub leaf_index : ℕ

-- Each level of the tree, the leaves first.
pub record MerkleTree : Type 0 where
  pub leaf_hashes : List Bytes
  pub nodes : List (List Bytes)
  pub root : Bytes

-- `l[i]`
unfoldable pub index {ℓ} : {A : Type ℓ} → List A → ℕ → Result A
index [] i = raise index_error
index (x ∷ xs) zero = ok x
index (x ∷ xs) (suc i) = index xs i

-- The body of the loop of `proof`. An only child is its own sibling.
unfoldable pub sibling_at : List Bytes → ℕ → Result Sibling
unfolding index
sibling_at level idx =
    if (idx % 2) == 0
    then (do h ← index level (if ltb (idx + 1) (length level) then idx + 1 else idx); ok (h, false))
    else (do h ← index level (idx - 1); ok (h, true))

-- The loop over all levels but the last.
unfoldable pub siblings_from : List (List Bytes) → ℕ → Result (List Sibling)
siblings_from [] idx = ok []
siblings_from (level ∷ levels) idx =
    let rest = siblings_from levels (idx / 2) in
    if nonempty levels then (do s ← sibling_at level idx; ss ← rest; ok (s ∷ ss)) else ok []

-- `self._nodes[-1][0]`, for levels that are not empty.
unfoldable pub root_of : List (List Bytes) → Bytes
root_of [] = []
root_of ([] ∷ []) = []
root_of ((h ∷ hs) ∷ []) = h
root_of (level ∷ next ∷ more) = root_of (next ∷ more)

module _ (sha256 : Bytes → Bytes) where
  -- `_leaf_hash`
  unfoldable pub leaf_hash : Bytes → Bytes
  leaf_hash d = sha256 (0 ∷ d)

  -- `_node_hash`
  unfoldable pub node_hash : Bytes → Bytes → Bytes
  node_hash l r = sha256 (1 ∷ (l ++ r))

  -- One round of the loop of `_build`: an odd level is padded with its last node.
  unfoldable pub next_level : List Bytes → List Bytes
  next_level [] = []
  next_level (a ∷ []) = node_hash a a ∷ []
  next_level (a ∷ b ∷ rest) = node_hash a b ∷ next_level rest

  -- The loop of `_build`, on fuel.
  unfoldable pub levels : ℕ → List Bytes → List (List Bytes)
  levels zero level = level ∷ []
  levels (suc fuel) level = elim (ltb 1 (length level)) [
    | true ↦ level ∷ levels fuel (next_level level)
    | false ↦ level ∷ []
  ]

  -- The bytes of "empty".
  abbrev empty_root : Bytes
  empty_root = sha256 (101 ∷ 109 ∷ 112 ∷ 116 ∷ 121 ∷ [])

  build_from : List Bytes → MerkleTree
  build_from [] = record { leaf_hashes = []; nodes = (empty_root ∷ []) ∷ []; root = empty_root }
  build_from (h ∷ hs) =
      let nodes = levels (length hs) (h ∷ hs) in
      record { leaf_hashes = h ∷ hs; nodes = nodes; root = root_of nodes }

  unfoldable pub build : List Bytes → MerkleTree
  unfolding build_from
  build leaves = build_from (map leaf_hash leaves)

  -- The loop of `verify` and of `verify_with_leaf_hash`.
  unfoldable pub recompute : Bytes → List Sibling → Bytes
  recompute current [] = current
  recompute current ((h, is_left) ∷ ss) =
      recompute (if is_left then node_hash h current else node_hash current h) ss

  unfoldable pub verify_with_leaf_hash : MerkleProof → Bytes → Bool
  verify_with_leaf_hash p h = bytes_eq (recompute h p.siblings) p.root

  -- `MerkleProof.verify`
  unfoldable pub verify_proof : MerkleProof → Bool
  unfolding verify_with_leaf_hash
  verify_proof p = verify_with_leaf_hash p p.leaf_hash

  -- `MerkleTree.verify`
  unfoldable pub verify_leaf : Bytes → MerkleProof → Bool
  unfolding verify_with_leaf_hash
  verify_leaf d p = verify_with_leaf_hash p (leaf_hash d)

abbrev proof_of : MerkleTree → ℕ → List Sibling → Result (Option MerkleProof)
proof_of t leaf_index ss = do
  h ← index t.leaf_hashes leaf_index
  ok (some (record { leaf_hash = h; siblings = ss; root = t.root; leaf_index = leaf_index }))

-- `MerkleTree.proof`
unfoldable pub proof : MerkleTree → ℕ → Result (Option MerkleProof)
proof t leaf_index =
    if ltb leaf_index (length t.leaf_hashes)
    then (if length t.leaf_hashes == 1
        then proof_of t leaf_index []
        else siblings_from t.nodes leaf_index >>= proof_of t leaf_index)
    else ok none
