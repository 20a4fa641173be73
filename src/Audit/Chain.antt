-- ===== src/Audit/Chain.antt =====
-- The chain of blocks: every sequence of logged events leaves a chain that verifies, and an index
-- under which every committed event verifies.
use trustmem.Prelude.{
  ℕ, suc, ◌≡◌, ◌⊎◌, refl, sym, ap, ◌∙◌, String, Bool, true, false, not, ◌&&◌, none, some, List, [],
  ◌∷◌, ◌++◌, map, length, nonempty, arith, inl, inr, str_eq, str_eq_iff, Bool-cases, leb, lookup,
  insert, lookup-insert, all,
}
use trustmem.Result.{ok}
use trustmem.Merkle.{Bytes, bytes_eq}
use trustmem.Merkle.Paths.{bytes_eq_refl}
use trustmem.Audit.{
  AuditEvent, MerkleBlock, MerkleStore, find_event, index_events, block_of, verify_links,
  verify_chain, make_block, commit_block, log, flush, verify_event, empty_store,
}
use trustmem.Audit.Integrity.{IsWhole, block_verify_event_ok}

-- From the root `prev` each block of the chain is linked to the one before, up to the root `last`.
abbrev pub Linked : List (String × MerkleBlock) → Bytes → List String → Bytes → Type 0
Linked blocks prev [] last = prev ≡ last
Linked blocks prev (id ∷ ids) last =
    (b : MerkleBlock) × (lookup id blocks ≡ some b)
    × (b.prev_root ≡ prev)
    × Linked blocks b.tree.root ids last

-- The event is in the block.
abbrev pub Holds : MerkleBlock → String → Type 0
Holds b eid = (i : ℕ) × (e : AuditEvent) × (find_event b.events eid ≡ some (i, e))

module _ (sha256 : Bytes → Bytes) (serialize : AuditEvent → Bytes) where
  pub record IsSound (st : MerkleStore) : Type 0 where
    pub chained : Linked st.blocks [] st.chain st.last_root
    pub whole :
        (id : String) (b : MerkleBlock) → lookup id st.blocks ≡ some b → IsWhole sha256 serialize b
    pub indexed :
        (eid id : String)
        → lookup eid st.event_index ≡ some id
        → (b : MerkleBlock) × (str_eq id "" ≡ false) × (lookup id st.blocks ≡ some b) × Holds b eid

-- The identifier is drawn for the first time.
abbrev pub IsFresh : MerkleStore → String → Type 0
IsFresh st id = (lookup id st.blocks ≡ none) × (str_eq id "" ≡ false)

lookup-insert_fresh :
    (id k : String) (b c : MerkleBlock) (m : List (String × MerkleBlock))
    → lookup id m ≡ none
    → lookup k m ≡ some b
    → lookup k (insert id c m) ≡ some b
lookup-insert_fresh id k b c m new old = rw lookup-insert (ground (arith, str_eq_iff id k, same))
  where
    same : id ≡ k → lookup id m ≡ lookup k m
    same e = ap (λ x. lookup x m) e

lookup-insert_self :
    (id : String) (c : MerkleBlock) (m : List (String × MerkleBlock))
    → lookup id (insert id c m) ≡ some c
lookup-insert_self id c m = rw lookup-insert (ground (arith, str_eq_iff id id))

Linked-extend :
    (m : List (String × MerkleBlock)) (id : String) (c : MerkleBlock) (prev : Bytes)
    (ids : List String) (last : Bytes)
    → lookup id m ≡ none
    → c.prev_root ≡ last
    → Linked m prev ids last
    → Linked (insert id c m) prev (ids ++ id ∷ []) c.tree.root
Linked-extend m id c prev [] last new e h = (c, lookup-insert_self id c m, e ∙ sym h, refl)
Linked-extend m id c prev (k ∷ ids) last new e (b, at, back, rest) =
    (b, lookup-insert_fresh id k b c m new at, back, Linked-extend m id c _ ids last new e rest)

verify_links_ok :
    (m : List (String × MerkleBlock)) (prev : Bytes) (ids : List String) (last : Bytes)
    → Linked m prev ids last
    → (rs : List (String × Bool)) × (verify_links m prev ids ≡ ok rs)
      × (all (λ r. r.1) rs ≡ true)
      × (map (λ r. r.0) rs ≡ ids)
unfolding verify_links
verify_links_ok m prev [] last h = ([], refl, refl, refl)
verify_links_ok m prev (id ∷ ids) last (b, at, back, rest) =
    let (rs, made, good, named) = verify_links_ok m b.tree.root ids last rest in
    let linked : bytes_eq b.prev_root prev ≡ true = rw back (bytes_eq_refl prev) in
    (
      (id, not (nonempty prev && not (bytes_eq b.prev_root prev))) ∷ rs,
      ground (arith, at, made),
      ground (arith, linked, good),
      ap (◌∷◌ id) named,
    )

abbrev Found : List AuditEvent → String → Type 0
Found es eid = (i : ℕ) × (e : AuditEvent) × (find_event es eid ≡ some (i, e))

Found-head :
    (x : AuditEvent) (es : List AuditEvent) (eid : String)
    → str_eq x.event_id eid ≡ true
    → Found (x ∷ es) eid
unfolding find_event
Found-head x es eid h = (0, x, rw h)

Found-cons :
    (x : AuditEvent) (es : List AuditEvent) (eid : String) → Found es eid → Found (x ∷ es) eid
unfolding find_event
Found-cons x es eid (i, e, at) = elim (Bool-cases (str_eq x.event_id eid)) [
  | inl hit ↦ (0, x, rw hit)
  | inr miss ↦ (suc i, e, ground (arith, miss, at))
]

-- What the index holds after the events of a block were added: these events, and what it held.
lookup-index_events :
    (es : List AuditEvent) (id : String) (m : List (String × String)) (eid k : String)
    → lookup eid (index_events es id m) ≡ some k
    → ((k ≡ id) × Found es eid) ⊎ (lookup eid m ≡ some k)
unfolding index_events
lookup-index_events [] id m eid k h = inr h
lookup-index_events (x ∷ es) id m eid k h =
    elim (lookup-index_events es id (insert x.event_id id m) eid k h) [
      | inl (here, found) ↦ inl (here, Found-cons x es eid found)
      | inr older ↦ elim (Bool-cases (str_eq x.event_id eid)) [
        | inl hit ↦ inl (ground (arith, lookup-insert x.event_id eid id m), Found-head x es eid hit)
        | inr miss ↦ inr (ground (arith, lookup-insert x.event_id eid id m))
      ]
    ]

module _ (sha256 : Bytes → Bytes) (serialize : AuditEvent → Bytes) where
  abbrev Sound : MerkleStore → Type 0
  Sound = IsSound sha256 serialize

  commit_block-IsSound :
      (st : MerkleStore) (id : String)
      → IsFresh st id
      → Sound st
      → Sound (commit_block sha256 serialize st id).0
  unfolding commit_block
  commit_block-IsSound st id (new, named) h = record {
    chained = Linked-extend st.blocks id c [] st.chain st.last_root new refl h.chained;
    whole = whole;
    indexed = indexed;
  }
    where
      c : MerkleBlock
      c = make_block sha256 serialize st id

      whole :
          (k : String) (b : MerkleBlock)
          → lookup k (insert id c st.blocks) ≡ some b
          → IsWhole sha256 serialize b
      whole k b at = elim (Bool-cases (str_eq id k)) [
        | inl hit ↦ let e : b ≡ c = ground (arith, lookup-insert id k c st.blocks, hit) in rw e refl
        | inr miss ↦ h.whole k b (ground (arith, lookup-insert id k c st.blocks, miss))
      ]

      indexed :
          (eid k : String)
          → lookup eid (index_events st.pending id st.event_index) ≡ some k
          → (b : MerkleBlock) × (str_eq k "" ≡ false)
            × (lookup k (insert id c st.blocks) ≡ some b)
            × Holds b eid
      indexed eid k at = elim (lookup-index_events st.pending id st.event_index eid k at) [
        | inl (here, found) ↦ (c, rw here named, rw here (lookup-insert_self id c st.blocks), found)
        | inr older ↦
            let (b, named', there, held) = h.indexed eid k older in
            (b, named', lookup-insert_fresh id k b c st.blocks new there, held)
      ]

  log-IsSound :
      (st : MerkleStore) (e : AuditEvent) (id : String)
      → IsFresh st id
      → Sound st
      → Sound (log sha256 serialize st e id)
  unfolding log
  log-IsSound st e id fresh h = elim (Bool-cases (leb st.block_size (length queued))) [
    | inl due ↦ rw due (commit_block-IsSound (record st { pending = queued }) id fresh same)
    | inr wait ↦ rw wait same
  ]
    where
      queued : List AuditEvent
      queued = st.pending ++ e ∷ []

      same : Sound (record st { pending = queued })
      same = record { chained = h.chained; whole = h.whole; indexed = h.indexed }

  flush-IsSound :
      (st : MerkleStore) (id : String)
      → IsFresh st id
      → Sound st
      → Sound (flush sha256 serialize st id).0
  unfolding flush
  flush-IsSound st id fresh h = elim (Bool-cases (nonempty st.pending)) [
    | inl due ↦ rw due (commit_block-IsSound st id fresh h)
    | inr none_pending ↦ rw none_pending h
  ]

  -- Events logged one after the other, each with the identifier for the block that it may complete,
  -- and a flush at the end.
  unfoldable pub log_all : MerkleStore → List (AuditEvent × String) → String → MerkleStore
  log_all st [] last = (flush sha256 serialize st last).0
  log_all st ((e, id) ∷ es) last = log_all (log sha256 serialize st e id) es last

  abbrev pub AllFresh : MerkleStore → List (AuditEvent × String) → String → Type 0
  AllFresh st [] last = IsFresh st last
  AllFresh st ((e, id) ∷ es) last = IsFresh st id × AllFresh (log sha256 serialize st e id) es last

  log_all-IsSound :
      (st : MerkleStore) (es : List (AuditEvent × String)) (last : String)
      → AllFresh st es last
      → Sound st
      → Sound (log_all st es last)
  unfolding log_all
  log_all-IsSound st [] last fresh h = flush-IsSound st last fresh h
  log_all-IsSound st ((e, id) ∷ es) last (fresh, later) h =
      log_all-IsSound (log sha256 serialize st e id) es last later (log-IsSound st e id fresh h)

  empty-IsSound : (n : ℕ) → Sound (empty_store n)
  unfolding lookup
  empty-IsSound n = record {
    chained = refl;
    whole = λ id b h. absurd (cc h);
    indexed = λ eid id h. absurd (cc h);
  }

  -- Whatever events are logged from an empty store on, if each block's identifier is drawn for the
  -- first time, the chain verifies, and the answer names its blocks in order.
  pub log_all-verify_chain :
      (n : ℕ) (es : List (AuditEvent × String)) (last : String)
      → AllFresh (empty_store n) es last
      → (rs : List (String × Bool)) × ((verify_chain (log_all (empty_store n) es last)
            ≡ ok (true, rs))
          × (map (λ r. r.0) rs ≡ (log_all (empty_store n) es last).chain))
  unfolding verify_chain
  log_all-verify_chain n es last fresh =
      let st = log_all (empty_store n) es last in
      let h = log_all-IsSound (empty_store n) es last fresh (empty-IsSound n) in
      let (rs, made, good, named) = verify_links_ok st.blocks [] st.chain st.last_root h.chained in
      (rs, (ground (arith, made, good), named))

  -- Whatever events are logged from an empty store on, if each block's identifier is drawn for the
  -- first time, every event in the index verifies.
  pub log_all-verify_event :
      (n : ℕ) (es : List (AuditEvent × String)) (last eid id : String)
      → AllFresh (empty_store n) es last
      → lookup eid (log_all (empty_store n) es last).event_index ≡ some id
      → verify_event sha256 serialize (log_all (empty_store n) es last) eid ≡ ok true
  unfolding verify_event block_of
  log_all-verify_event n es last eid id fresh at =
      let st = log_all (empty_store n) es last in
      let h = log_all-IsSound (empty_store n) es last fresh (empty-IsSound n) in
      let (b, named, there, (i, e, held)) = h.indexed eid id at in
      let ok' = block_verify_event_ok sha256 serialize b eid i e (h.whole id b there) held in
      ground (arith, at, named, there, ok')
