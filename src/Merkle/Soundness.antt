-- ===== src/Merkle/Soundness.antt =====
-- What a proof that verifies shows: the leaf is in the tree, or two inputs of the hash collide.
use trustmem.Prelude.{
  ℕ, zero, suc, ◌≤◌, ◌≡◌, ◌≢◌, ◌⊎◌, inl, inr, refl, sym, ap, ◌∙◌, true, false, List, [], ◌∷◌, ◌++◌,
  map, ltb, length, length-append, nonempty, All, arith, Bool-cases,
}
use mathlib.Core.Path.{subst}
use trustmem.Merkle.{
  Bytes, bytes_eq, Sibling, MerkleProof, leaf_hash, node_hash, next_level, levels, root_of,
  build_from, build, recompute, verify_leaf,
}
use trustmem.Merkle.Paths.{bytes_eq_refl, levels_more, levels_done, levels-nonempty, root_of-cons}

bytes_eq_sound : (xs ys : Bytes) → bytes_eq xs ys ≡ true → xs ≡ ys
unfolding bytes_eq
bytes_eq_sound [] [] h = refl
bytes_eq_sound [] (y ∷ ys) h = cc
bytes_eq_sound (x ∷ xs) [] h = cc
bytes_eq_sound (x ∷ xs) (y ∷ ys) h = ground (arith, bytes_eq_sound xs ys)

append_right_of_length : (a b c d : Bytes) → length b ≡ length d → a ++ b ≡ c ++ d → b ≡ d
append_right_of_length [] b [] d n e = e
append_right_of_length [] b (y ∷ c) d n e =
    absurd (omega (arith, n, ap (λ (l : Bytes). length l) e, length-append c d))
append_right_of_length (x ∷ a) b [] d n e =
    absurd (omega (arith, n, ap (λ (l : Bytes). length l) e, length-append a b))
append_right_of_length (x ∷ a) b (y ∷ c) d n e = append_right_of_length a b c d n (cc)

append_left_of_length : (a b c d : Bytes) → length a ≡ length c → a ++ b ≡ c ++ d → a ≡ c
append_left_of_length [] b [] d n e = refl
append_left_of_length [] b (y ∷ c) d n e = absurd (omega arith)
append_left_of_length (x ∷ a) b [] d n e = absurd (omega arith)
append_left_of_length (x ∷ a) b (y ∷ c) d n e =
    let rest : a ≡ c = append_left_of_length a b c d (omega arith) (cc) in cc

abbrev pub Member : Bytes → List Bytes → Type 0
Member d [] = ⊥
Member d (x ∷ xs) = (d ≡ x) ⊎ Member d xs

-- Two inputs with one digest.
abbrev pub Collision : (Bytes → Bytes) → Type 0
Collision sha256 = (x : Bytes) × (y : Bytes) × (x ≢ y) × (sha256 x ≡ sha256 y)

module _ (sha256 : Bytes → Bytes) where
  same_or_Collision : (x y : Bytes) → sha256 x ≡ sha256 y → (x ≡ y) ⊎ Collision sha256
  same_or_Collision x y e = elim (Bool-cases (bytes_eq x y)) [
    | inl same ↦ inl (bytes_eq_sound x y same)
    | inr differ ↦ inr (x, y, λ p. cc (differ, bytes_eq_refl x, ap (bytes_eq x) p), e)
  ]

  -- The hashes that stand in a tree over the leaves.
  data IsNode (leaves : List Bytes) : Bytes → Type 0 where
    leaf : {h : Bytes} (d : Bytes) → Member d leaves → h ≡ leaf_hash sha256 d → IsNode leaves h
    node :
        {h : Bytes} (l r : Bytes)
        → IsNode leaves l
        → IsNode leaves r
        → h ≡ node_hash sha256 l r
        → IsNode leaves h

  module _ (leaves : List Bytes) where
    next_level-IsNode :
        (l : List Bytes) → All (IsNode leaves) l → All (IsNode leaves) (next_level sha256 l)
    unfolding next_level
    next_level-IsNode [] h = tt
    next_level-IsNode (a ∷ []) h = (node a a h.0 h.0 refl, tt)
    next_level-IsNode (a ∷ b ∷ l) h = (node a b h.0 h.1.0 refl, next_level-IsNode l h.1.1)

    next_level-nonempty :
        (l : List Bytes) → nonempty l ≡ true → nonempty (next_level sha256 l) ≡ true
    unfolding next_level
    next_level-nonempty [] h = h
    next_level-nonempty (a ∷ []) h = refl
    next_level-nonempty (a ∷ b ∷ l) h = refl

    head-IsNode :
        (l : List Bytes)
        → nonempty l ≡ true
        → All (IsNode leaves) l
        → IsNode leaves (root_of (l ∷ []))
    unfolding root_of
    head-IsNode [] e h = absurd (cc e)
    head-IsNode (x ∷ xs) e h = h.0

    root-IsNode :
        (fuel : ℕ) (l : List Bytes)
        → nonempty l ≡ true
        → All (IsNode leaves) l
        → IsNode leaves (root_of (levels sha256 fuel l))
    unfolding levels
    root-IsNode zero l e h = head-IsNode l e h
    root-IsNode (suc fuel) l e h = elim (Bool-cases (ltb 1 (length l))) [
      | inl more ↦
          rw (levels_more sha256 fuel l more, root_of-cons l _ (levels-nonempty sha256 fuel _))
            (root-IsNode fuel _ (next_level-nonempty l e) (next_level-IsNode l h))
      | inr one ↦ rw (levels_done sha256 (suc fuel) l one) (head-IsNode l e h)
    ]

  map-IsNode :
      (leaves all : List Bytes)
      → ((d : Bytes) → Member d leaves → Member d all)
      → All (IsNode all) (map (leaf_hash sha256) leaves)
  map-IsNode [] all inside = tt
  map-IsNode (d ∷ ds) all inside =
      (leaf d (inside d (inl refl)) refl, map-IsNode ds all (λ x m. inside x (inr m)))

  module _ (size : (d : Bytes) → length (sha256 d) ≡ 32) (leaves : List Bytes) where
    length-IsNode : {h : Bytes} → IsNode leaves h → length h ≡ 32
    unfolding leaf_hash node_hash
    length-IsNode (leaf d m e) = ap (λ (l : Bytes). length l) e ∙ size (0 ∷ d)
    length-IsNode (node l r nl nr e) = ap (λ (l : Bytes). length l) e ∙ size (1 ∷ (l ++ r))

    right_child :
        (s cur : Bytes) {h : Bytes}
        → length cur ≡ 32
        → IsNode leaves h
        → h ≡ node_hash sha256 s cur
        → IsNode leaves cur ⊎ Collision sha256
    unfolding leaf_hash node_hash
    right_child s cur n (leaf d m e) q =
        elim (same_or_Collision (1 ∷ (s ++ cur)) (0 ∷ d) (sym q ∙ e)) [
          | inl same ↦ absurd (ground arith)
          | inr c ↦ inr c
        ]
    right_child s cur n (node l r nl nr e) q =
        elim (same_or_Collision (1 ∷ (s ++ cur)) (1 ∷ (l ++ r)) (sym q ∙ e)) [
          | inl same ↦
              let eq : cur ≡ r =
                append_right_of_length s cur l r (n ∙ sym (length-IsNode nr)) (cc) in
              inl (subst (IsNode leaves) (sym eq) nr)
          | inr c ↦ inr c
        ]

    left_child :
        (cur s : Bytes) {h : Bytes}
        → length cur ≡ 32
        → IsNode leaves h
        → h ≡ node_hash sha256 cur s
        → IsNode leaves cur ⊎ Collision sha256
    unfolding leaf_hash node_hash
    left_child cur s n (leaf d m e) q =
        elim (same_or_Collision (1 ∷ (cur ++ s)) (0 ∷ d) (sym q ∙ e)) [
          | inl same ↦ absurd (ground arith)
          | inr c ↦ inr c
        ]
    left_child cur s n (node l r nl nr e) q =
        elim (same_or_Collision (1 ∷ (cur ++ s)) (1 ∷ (l ++ r)) (sym q ∙ e)) [
          | inl same ↦
              let eq : cur ≡ l =
                append_left_of_length cur s l r (n ∙ sym (length-IsNode nl)) (cc) in
              inl (subst (IsNode leaves) (sym eq) nl)
          | inr c ↦ inr c
        ]

    start-IsNode :
        (cur : Bytes) (ss : List Sibling)
        → length cur ≡ 32
        → IsNode leaves (recompute sha256 cur ss)
        → IsNode leaves cur ⊎ Collision sha256
    unfolding recompute node_hash
    start-IsNode cur [] n h = inl h
    start-IsNode cur ((s, true) ∷ ss) n h =
        elim (start-IsNode (node_hash sha256 s cur) ss (size _) h) [
          | inl above ↦ right_child s cur n above refl
          | inr c ↦ inr c
        ]
    start-IsNode cur ((s, false) ∷ ss) n h =
        elim (start-IsNode (node_hash sha256 cur s) ss (size _) h) [
          | inl above ↦ left_child cur s n above refl
          | inr c ↦ inr c
        ]

    -- A leaf's hash that stands in the tree is that of one of the leaves.
    leaf-Member :
        (d : Bytes) {h : Bytes}
        → IsNode leaves h
        → h ≡ leaf_hash sha256 d
        → Member d leaves ⊎ Collision sha256
    unfolding leaf_hash node_hash
    leaf-Member d (leaf d' m e) q = elim (same_or_Collision (0 ∷ d) (0 ∷ d') (sym q ∙ e)) [
      | inl same ↦ let eq : d ≡ d' = cc in inl (subst (λ x. Member x leaves) (sym eq) m)
      | inr c ↦ inr c
    ]
    leaf-Member d (node l r nl nr e) q =
        elim (same_or_Collision (0 ∷ d) (1 ∷ (l ++ r)) (sym q ∙ e)) [
          | inl same ↦ absurd (ground arith)
          | inr c ↦ inr c
        ]

  -- What `recompute` ends with is the digest of a text that is marked as a leaf or as a node.
  recompute_marked :
      (ss : List Sibling) (t : ℕ) (x : Bytes)
      → t ≤ 1
      → (u : ℕ) × (y : Bytes) × (u ≤ 1) × (recompute sha256 (sha256 (t ∷ x)) ss ≡ sha256 (u ∷ y))
  unfolding recompute node_hash
  recompute_marked [] t x h = (t, x, h, refl)
  recompute_marked ((s, true) ∷ ss) t x h = recompute_marked ss 1 _ (omega arith)
  recompute_marked ((s, false) ∷ ss) t x h = recompute_marked ss 1 _ (omega arith)

  built-Member :
      (size : (d : Bytes) → length (sha256 d) ≡ 32) (leaves : List Bytes) (d : Bytes)
      (ss : List Sibling)
      → recompute sha256 (leaf_hash sha256 d) ss ≡ (build sha256 leaves).root
      → Member d leaves ⊎ Collision sha256
  unfolding build build_from leaf_hash
  built-Member size [] d ss e =
      let (u, y, marked, same) = recompute_marked ss 0 d (omega arith) in
      elim (same_or_Collision (u ∷ y) _ (sym same ∙ e)) [
        | inl p ↦ absurd (ground arith)
        | inr c ↦ inr c
      ]
  built-Member size (x ∷ xs) d ss e =
      let hs = map (leaf_hash sha256) xs in
      let root : IsNode (x ∷ xs) (root_of (levels sha256 (length hs) (leaf_hash sha256 x ∷ hs))) =
        root-IsNode (x ∷ xs) (length hs) _ refl (map-IsNode (x ∷ xs) (x ∷ xs) (λ y m. m)) in
      let top = subst (IsNode (x ∷ xs)) (sym e) root in
      elim (start-IsNode size (x ∷ xs) (leaf_hash sha256 d) ss (size _) top) [
        | inl found ↦ leaf-Member size (x ∷ xs) d found refl
        | inr c ↦ inr c
      ]

  -- If a proof, honest or not, names the root of a tree and verifies for some bytes, then these
  -- bytes are a leaf of the tree, or the proof exhibits two inputs with one digest.
  pub verify_leaf_sound :
      (size : (d : Bytes) → length (sha256 d) ≡ 32) (leaves : List Bytes) (d : Bytes)
      (p : MerkleProof)
      → p.root ≡ (build sha256 leaves).root
      → verify_leaf sha256 d p ≡ true
      → Member d leaves ⊎ Collision sha256
  unfolding verify_leaf
  verify_leaf_sound size leaves d p r h =
      built-Member size leaves d p.siblings (bytes_eq_sound _ _ h ∙ r)
