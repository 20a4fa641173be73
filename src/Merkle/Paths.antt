-- ===== src/Merkle/Paths.antt =====
-- Every leaf has a proof, and its proof verifies.
use native.Mathlib.Numerals.{add-one}
use trustmem.Prelude.{
  ℕ, zero, suc, ◌+◌, ◌-◌, ◌/◌, ◌%◌, ◌≤◌, ◌<◌, ◌≡◌, refl, sym, ap, true, false, none, some, List, [],
  ◌∷◌, map, ltb, ◌==◌, if◌then◌else◌, length, get_elem?, nonempty, arith, Bool-cases, inl, inr,
  length-map, lt→ltb,
}
use trustmem.Result.{ok}
use trustmem.Merkle.{
  Bytes, bytes_eq, Sibling, MerkleProof, index, sibling_at, siblings_from, leaf_hash, node_hash,
  next_level, levels, root_of, build_from, build, recompute, verify_proof, verify_leaf, proof,
}

pub bytes_eq_refl : (xs : Bytes) → bytes_eq xs xs ≡ true
unfolding bytes_eq
bytes_eq_refl [] = refl
bytes_eq_refl (x ∷ xs) = ground (arith, bytes_eq_refl xs)

index-get_elem? :
    {A : Type 0} (xs : List A) (i : ℕ) {a : A} → get_elem? xs i ≡ some a → index xs i ≡ ok a
unfolding index
index-get_elem? [] i h = cc
index-get_elem? (x ∷ xs) zero h = cc
index-get_elem? (x ∷ xs) (suc i) h = index-get_elem? xs i h

get_elem?-some :
    {A : Type 0} (xs : List A) (i : ℕ) → i < length xs → (a : A) × (get_elem? xs i ≡ some a)
get_elem?-some [] i h = absurd (omega arith)
get_elem?-some (x ∷ xs) zero h = (x, refl)
get_elem?-some (x ∷ xs) (suc i) h = get_elem?-some xs i (omega arith)

get_elem?_lt : {A : Type 0} (xs : List A) (i : ℕ) {a : A} → get_elem? xs i ≡ some a → i < length xs
get_elem?_lt [] i h = cc
get_elem?_lt (x ∷ xs) zero h = omega arith
get_elem?_lt (x ∷ xs) (suc i) h = let k = get_elem?_lt xs i h in omega (arith, k)

pub root_of-cons :
    (l : List Bytes) (ls : List (List Bytes)) → nonempty ls ≡ true → root_of (l ∷ ls) ≡ root_of ls
unfolding root_of
root_of-cons l [] h = cc
root_of-cons [] (x ∷ xs) h = refl
root_of-cons (y ∷ ys) (x ∷ xs) h = refl

root_of-single : (l : List Bytes) {h : Bytes} → get_elem? l 0 ≡ some h → root_of (l ∷ []) ≡ h
unfolding root_of
root_of-single [] e = cc
root_of-single (x ∷ l) e = cc

module _ (sha256 : Bytes → Bytes) where
  next_level-pair :
      (l : List Bytes) (k j : ℕ) {a b : Bytes}
      → j ≡ k + k
      → get_elem? l j ≡ some a
      → get_elem? l (suc j) ≡ some b
      → get_elem? (next_level sha256 l) k ≡ some (node_hash sha256 a b)
  unfolding next_level
  next_level-pair [] k j e h g = cc
  next_level-pair (x ∷ []) k zero e h g = cc
  next_level-pair (x ∷ []) k (suc j) e h g = cc
  next_level-pair (x ∷ y ∷ l) zero zero e h g = ground arith
  next_level-pair (x ∷ y ∷ l) zero (suc j) e h g = absurd (omega arith)
  next_level-pair (x ∷ y ∷ l) (suc k) zero e h g = absurd (omega arith)
  next_level-pair (x ∷ y ∷ l) (suc k) (suc zero) e h g = absurd (omega arith)
  next_level-pair (x ∷ y ∷ l) (suc k) (suc (suc j)) e h g = next_level-pair l k j (omega arith) h g

  next_level-last :
      (l : List Bytes) (k j : ℕ) {a : Bytes}
      → j ≡ k + k
      → get_elem? l j ≡ some a
      → length l ≡ suc j
      → get_elem? (next_level sha256 l) k ≡ some (node_hash sha256 a a)
  unfolding next_level
  next_level-last [] k j e h g = cc
  next_level-last (x ∷ []) zero zero e h g = ground arith
  next_level-last (x ∷ []) (suc k) zero e h g = absurd (omega arith)
  next_level-last (x ∷ []) k (suc j) e h g = cc
  next_level-last (x ∷ y ∷ l) zero zero e h g = absurd (omega arith)
  next_level-last (x ∷ y ∷ l) zero (suc j) e h g = absurd (omega arith)
  next_level-last (x ∷ y ∷ l) (suc k) zero e h g = absurd (omega arith)
  next_level-last (x ∷ y ∷ l) (suc k) (suc zero) e h g = absurd (omega arith)
  next_level-last (x ∷ y ∷ l) (suc k) (suc (suc j)) e h g =
      next_level-last l k j (omega arith) h (omega arith)

  length-next_level : (l : List Bytes) → length (next_level sha256 l) ≡ (length l + 1) / 2
  unfolding next_level
  length-next_level [] = refl
  length-next_level (x ∷ []) = refl
  length-next_level (x ∷ y ∷ l) = omega (arith, length-next_level l)

  abbrev combine : Bytes → Sibling → Bytes
  combine h (s, is_left) = if is_left then node_hash sha256 s h else node_hash sha256 h s

  -- One round: the sibling exists, and the parent stands at half the index.
  sibling_round :
      (l : List Bytes) (i : ℕ) {h : Bytes}
      → get_elem? l i ≡ some h
      → (s : Sibling) × (sibling_at l i ≡ ok s)
        × (get_elem? (next_level sha256 l) (i / 2) ≡ some (combine h s))
  unfolding sibling_at
  sibling_round l i {h} g =
      let inside = get_elem?_lt l i g in
      elim (Bool-cases ((i % 2) == 0)) [
        | inl even ↦ elim (Bool-cases (ltb (i + 1) (length l))) [
          | inl paired ↦
              let (b, at) = get_elem?-some l (suc i) (ground arith) in
              let found : index l (i + 1) ≡ ok b = rw add-one (index-get_elem? l (suc i) at) in
              (
                (b, false),
                rw (even, paired, found),
                next_level-pair l (i / 2) i (ground arith) g at,
              )
          | inr last ↦ (
            (h, false),
            rw (even, last, index-get_elem? l i g),
            next_level-last l (i / 2) i (ground arith) g (ground arith),
          )
        ]
        | inr odd ↦
            let (a, at) = get_elem?-some l (i - 1) (ground arith) in
            let step : suc (i - 1) ≡ i = ground arith in
            (
              (a, true),
              rw (odd, index-get_elem? l (i - 1) at),
              next_level-pair l (i / 2) (i - 1) (ground arith) at (rw step g),
            )
      ]

  pub levels-nonempty : (fuel : ℕ) (l : List Bytes) → nonempty (levels sha256 fuel l) ≡ true
  unfolding levels
  levels-nonempty zero l = refl
  levels-nonempty (suc fuel) l = ground arith

  pub levels_more :
      (fuel : ℕ) (l : List Bytes)
      → ltb 1 (length l) ≡ true
      → levels sha256 (suc fuel) l ≡ l ∷ levels sha256 fuel (next_level sha256 l)
  unfolding levels
  levels_more fuel l h = ground arith

  pub levels_done :
      (fuel : ℕ) (l : List Bytes) → ltb 1 (length l) ≡ false → levels sha256 fuel l ≡ l ∷ []
  unfolding levels
  levels_done zero l h = refl
  levels_done (suc fuel) l h = ground arith

  single_path :
      (fuel : ℕ) (l : List Bytes) (i : ℕ) {h : Bytes}
      → ltb 1 (length l) ≡ false
      → get_elem? l i ≡ some h
      → (ss : List Sibling) × (siblings_from (levels sha256 fuel l) i ≡ ok ss)
        × (recompute sha256 h ss ≡ root_of (levels sha256 fuel l))
  unfolding siblings_from recompute
  single_path fuel l i {h} one g =
      let e : i ≡ 0 = ground (arith, get_elem?_lt l i g) in
      let at : get_elem? l 0 ≡ some h = rw e at g in
      rw (levels_done fuel l one) ([], refl, sym (root_of-single l at))

  -- With enough fuel the path from any node of a level leads to the root.
  levels_path :
      (fuel : ℕ) (l : List Bytes) (i : ℕ) {h : Bytes}
      → length l ≤ fuel + 1
      → get_elem? l i ≡ some h
      → (ss : List Sibling) × (siblings_from (levels sha256 fuel l) i ≡ ok ss)
        × (recompute sha256 h ss ≡ root_of (levels sha256 fuel l))
  unfolding siblings_from recompute
  levels_path zero l i enough g = single_path zero l i (ground arith) g
  levels_path (suc fuel) l i {h} enough g = elim (Bool-cases (ltb 1 (length l))) [
    | inl more ↦
        let (s, at, parent) = sibling_round l i g in
        let (ss, made, root) =
          levels_path fuel (next_level sha256 l) (i / 2) (ground (arith, length-next_level l))
            parent in
        let above = levels-nonempty fuel (next_level sha256 l) in
        (
          s ∷ ss,
          rw (levels_more fuel l more, above, at, made),
          rw (levels_more fuel l more, root_of-cons l _ above) (folds s ss root),
        )
    | inr one ↦ single_path (suc fuel) l i one g
  ]
    where
      folds :
          (s : Sibling) (ss : List Sibling) {r : Bytes}
          → recompute sha256 (combine h s) ss ≡ r
          → recompute sha256 h (s ∷ ss) ≡ r
      folds (b, is_left) ss e = e

  get_elem?-map_leaf_hash :
      (leaves : List Bytes) (i : ℕ) {d : Bytes}
      → get_elem? leaves i ≡ some d
      → get_elem? (map (leaf_hash sha256) leaves) i ≡ some (leaf_hash sha256 d)
  get_elem?-map_leaf_hash [] i e = cc
  get_elem?-map_leaf_hash (x ∷ xs) zero e = cc
  get_elem?-map_leaf_hash (x ∷ xs) (suc i) e = get_elem?-map_leaf_hash xs i e

  one_leaf :
      (y : Bytes) (ys : List Bytes) (j : ℕ) (z : Bytes)
      → (length (y ∷ ys) == 1) ≡ true
      → get_elem? (y ∷ ys) j ≡ some z
      → z ≡ root_of (levels sha256 (length ys) (y ∷ ys))
  unfolding levels root_of
  one_leaf y [] zero z one e = cc
  one_leaf y [] (suc j) z one e = cc
  one_leaf y (w ∷ ws) j z one e = absurd (ground arith)

  leaf_hashes-build_from : (hs : List Bytes) → (build_from sha256 hs).leaf_hashes ≡ hs
  unfolding build_from
  leaf_hashes-build_from [] = refl
  leaf_hashes-build_from (h ∷ hs) = refl

  -- A tree that was built from leaf hashes, and the one at the index: its proof is made and leads
  -- to the root.
  built_path :
      (hs : List Bytes) (i : ℕ) {h : Bytes}
      → get_elem? hs i ≡ some h
      → (ss : List Sibling) × (proof (build_from sha256 hs) i
          ≡ ok (
              some (record {
                leaf_hash = h;
                siblings = ss;
                root = (build_from sha256 hs).root;
                leaf_index = i;
              })))
        × (recompute sha256 h ss ≡ (build_from sha256 hs).root)
  unfolding proof build_from recompute
  built_path [] i g = cc
  built_path (x ∷ xs) i {h} g =
      let (ss, made, root) = levels_path (length xs) (x ∷ xs) i (omega arith) g in
      let inside = lt→ltb i (length (x ∷ xs)) (get_elem?_lt (x ∷ xs) i g) in
      elim (Bool-cases (length (x ∷ xs) == 1)) [
        | inl one ↦ ([], rw (inside, one, index-get_elem? (x ∷ xs) i g), one_leaf x xs i _ one g)
        | inr more ↦ (ss, rw (inside, more, made, index-get_elem? (x ∷ xs) i g), root)
      ]

  -- A tree has a proof for each of its leaves, which names the tree's root and the leaf's index, and
  -- which verifies, for the leaf's bytes and for the hash that it carries.
  pub proof_verifies :
      (leaves : List Bytes) (i : ℕ) {d : Bytes}
      → get_elem? leaves i ≡ some d
      → (p : MerkleProof) × (proof (build sha256 leaves) i ≡ ok (some p))
        × (verify_leaf sha256 d p ≡ true)
        × (verify_proof sha256 p ≡ true)
        × (p.root ≡ (build sha256 leaves).root)
        × (p.leaf_index ≡ i)
  unfolding build verify_leaf verify_proof
  proof_verifies leaves i {d} g =
      let (ss, made, root) =
        built_path (map (leaf_hash sha256) leaves) i (get_elem?-map_leaf_hash leaves i g) in
      (_, made, rw root (bytes_eq_refl _), rw root (bytes_eq_refl _), refl, refl)

  -- Beyond the leaves there is no proof, and no error.
  pub proof_out_of_range :
      (leaves : List Bytes) (i : ℕ) → length leaves ≤ i → proof (build sha256 leaves) i ≡ ok none
  unfolding proof build
  proof_out_of_range leaves i h =
      let hs = map (leaf_hash sha256) leaves in
      ground (
        arith,
        ap (λ (l : List Bytes). length l) (leaf_hashes-build_from hs),
        length-map (leaf_hash sha256) leaves,
      )
