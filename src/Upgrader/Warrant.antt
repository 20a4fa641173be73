-- ===== src/Upgrader/Warrant.antt =====
-- core/upgrader.py: what an upgrade rests on, and how far it goes.
use trustmem.Prelude.{
  ◌<◌, ◌≤◌, String, Bool, true, false, not, Option, none, some, List, [], ◌∷◌, ◌≡◌, ◌↔◌, ◌⊎◌, refl,
  sym, nonempty, All, str_eq, leb, Bool-cases, Option-cases, inl, inr, leb→le, le→leb, arith,
}
use trustmem.Result.{ok}
use trustmem.Labels.{MemoryLabel, Trust, t3_high}
use trustmem.Labels.Lattice.{trust_level, trust_leb, max_trust, trust_of}
use trustmem.Session.{Session, raise_trust_via_gate}
use trustmem.Upgrader.{
  EvidenceType, cross_source, structural, local_consistency, human, Evidence, Externals, Upgrader,
  Grant, Reason, grant_if, refused, granted, AnchorReceipt, validator_for, one_up, fits, found_then,
  match_all, resolve_matched, grant, conclude, try_upgrade, derive_chunk, refusal, UpgradeResult,
  is_anchored, apply_to_session,
}
use trustmem.Upgrader.Sources.{independent_sources}

module _ (look : String → Option MemoryLabel) (mem : MemoryLabel) where
  -- The identifier names a memory of at least T2 with the layer, type and task of this one.
  abbrev pub Corroborates : String → Type 0
  Corroborates cid = (m : MemoryLabel) × (look cid ≡ some m) × (fits mem m ≡ true)

  one_found :
      (o : Option MemoryLabel) (rest : Option (List MemoryLabel)) (ms : List MemoryLabel)
      → found_then mem o rest ≡ some ms
      → (m : MemoryLabel) × (others : List MemoryLabel) × (o ≡ some m)
        × (fits mem m ≡ true)
        × (rest ≡ some others)
  one_found none rest ms h = absurd (cc h)
  one_found (some m) none ms h = absurd (ground (arith, h))
  one_found (some m) (some others) ms h = elim (Bool-cases (fits mem m)) [
    | inl b ↦ (m, others, refl, b, refl)
    | inr b ↦ absurd (ground (arith, h, b))
  ]

  match_all-Corroborates :
      (ids : List String) (ms : List MemoryLabel)
      → match_all look mem ids ≡ some ms
      → All Corroborates ids
  unfolding match_all
  match_all-Corroborates [] ms h = tt
  match_all-Corroborates (cid ∷ ids) ms h =
      let (m, others, found, fit, rest) = one_found (look cid) (match_all look mem ids) ms h in
      ((m, found, fit), match_all-Corroborates ids others rest)

  Corroborates-match_all :
      (ids : List String)
      → All Corroborates ids
      → (ms : List MemoryLabel) × (match_all look mem ids ≡ some ms)
  unfolding match_all
  Corroborates-match_all [] h = ([], refl)
  Corroborates-match_all (cid ∷ ids) ((m, found, fit), rest) =
      let others = Corroborates-match_all ids rest in
      (m ∷ others.0, rw (match_all, found, fit, others.1) refl)

Grant-cases :
    (g : Grant) → ((reason : Reason) × (g ≡ refused reason)) ⊎ ((a : Trust) × (g ≡ granted a))
Grant-cases (refused reason) = inl (reason, refl)
Grant-cases (granted a) = inr (a, refl)

granted_if :
    (b : Bool) (reason : Reason) (next : Grant) (a : Trust)
    → grant_if b reason next ≡ granted a
    → (b ≡ true) × (next ≡ granted a)
granted_if true reason next a h = (refl, h)
granted_if false reason next a h = absurd (cc h)

module _ (ex : Externals) (up : Upgrader ex) (mem : MemoryLabel) (ev : Evidence)
    (sig_verifier : Option (String → String → Bool)) (content : Option String) where
  -- What each kind of evidence has to be.
  pub data Warranted : EvidenceType → Type 0 where
    by_human :
        (verifier : String → String → Bool)
        → sig_verifier ≡ some verifier
        → str_eq ev.human_signature "" ≡ false
        → verifier ev.human_signature mem.chunk_id ≡ true
        → Warranted human
    by_sources :
        2 ≤ independent_sources ex.host_of ev.source_urls up.registry
        → ev.consistent ≡ true
        → Warranted cross_source
    by_structure :
        (validator : String → Bool) (text : String)
        → validator_for ex ev.validator ≡ some validator
        → content ≡ some text
        → validator text ≡ true
        → Warranted structural
    by_match :
        (look : String → Option MemoryLabel)
        → up.chunk_lookup ≡ some look
        → nonempty ev.matched_chunks ≡ true
        → All (Corroborates look mem) ev.matched_chunks
        → Warranted local_consistency

  resolves :
      (look : String → Option MemoryLabel) (ids : List String)
      → up.chunk_lookup ≡ some look
      → nonempty ids ≡ true
      → All (Corroborates look mem) ids
      → (ms : List MemoryLabel) × (resolve_matched ex up ids mem ≡ some ms)
  unfolding resolve_matched
  resolves look [] e n m = absurd (cc n)
  resolves look (cid ∷ ids) e n m =
      let matched = Corroborates-match_all look mem (cid ∷ ids) m in
      (matched.0, rw (resolve_matched, e) (matched.1))

  resolved :
      (ids : List String) (ms : List MemoryLabel)
      → resolve_matched ex up ids mem ≡ some ms
      → (look : String → Option MemoryLabel) × (up.chunk_lookup ≡ some look)
        × (nonempty ids ≡ true)
        × All (Corroborates look mem) ids
  unfolding resolve_matched
  resolved [] ms h = absurd (cc h)
  resolved (cid ∷ ids) ms h = elim (Option-cases up.chunk_lookup) [
    | inl e ↦ absurd (cc (rw (resolve_matched, e) at h))
    | inr (look, e) ↦ (
      look,
      e,
      refl,
      match_all-Corroborates look mem (cid ∷ ids) ms (rw (resolve_matched, e) at h),
    )
  ]

  -- How far each kind of evidence lifts.
  abbrev pub target : EvidenceType → Trust
  target human = t3_high
  target t = one_up mem.provenance_trust

  Warranted-grant :
      (t : EvidenceType)
      → Warranted t
      → grant ex up mem ev sig_verifier content t ≡ granted (target t)
  unfolding grant
  Warranted-grant human (by_human verifier e signed accepted) = rw e (rw (signed, accepted) refl)
  Warranted-grant cross_source (by_sources n c) =
      rw (le→leb 2 (independent_sources ex.host_of ev.source_urls up.registry) n, c) refl
  Warranted-grant structural (by_structure validator text e f g) = rw (grant, e) (rw f (rw g refl))
  Warranted-grant local_consistency (by_match look e n m) =
      let matched = resolves look ev.matched_chunks e n m in rw (grant, matched.1) refl

  verifier_cases :
      (sig : Option (String → String → Bool)) (a : Trust)
      → sig_verifier ≡ sig
      → grant ex up mem ev sig content human ≡ granted a
      → Warranted human × (a ≡ t3_high)
  unfolding grant
  verifier_cases none a e h = absurd (cc h)
  verifier_cases (some verifier) a e h =
      let (signed, rest) = granted_if (not (str_eq ev.human_signature "")) _ _ a h in
      let (accepted, last) = granted_if (verifier ev.human_signature mem.chunk_id) _ _ a rest in
      (by_human verifier e (ground (arith, signed)) accepted, cc last)

  grant-Warranted :
      (t : EvidenceType) (a : Trust)
      → grant ex up mem ev sig_verifier content t ≡ granted a
      → Warranted t × (a ≡ target t)
  unfolding grant
  grant-Warranted human a h = verifier_cases sig_verifier a refl h
  grant-Warranted cross_source a h =
      let enough = independent_sources ex.host_of ev.source_urls up.registry in
      let (many, rest) = granted_if (leb 2 enough) _ _ a h in
      let (consistent, last) = granted_if ev.consistent _ _ a rest in
      (by_sources (leb→le 2 enough many) consistent, cc last)
  grant-Warranted structural a h = elim (Option-cases (validator_for ex ev.validator)) [
    | inl e ↦ absurd (cc (rw (grant, e) at h))
    | inr (validator, e) ↦ elim (Option-cases content) [
      | inl f ↦ absurd (cc (rw (grant, e, f) at h))
      | inr (text, f) ↦
          let (valid, last) = granted_if (validator text) _ _ a (rw (grant, e, f) at h) in
          (by_structure validator text e f valid, cc last)
    ]
  ]
  grant-Warranted local_consistency a h =
      elim (Option-cases (resolve_matched ex up ev.matched_chunks mem)) [
        | inl e ↦ absurd (cc (rw (grant, e) at h))
        | inr (ms, e) ↦
            let (look, found, some_ids, all_fit) = resolved ev.matched_chunks ms e in
            (by_match look found some_ids all_fit, cc (rw (grant, e) at h))
      ]

  rises :
      (t : EvidenceType)
      → (trust_level mem.provenance_trust < 3 → trust_leb (target t) mem.provenance_trust ≡ false)
        × (trust_leb (target t) mem.provenance_trust ≡ false → trust_level mem.provenance_trust < 3)
  unfolding one_up trust_level trust_of
  rises human = ground arith
  rises cross_source = ground arith
  rises structural = ground arith
  rises local_consistency = ground arith

  module _ (suffix : String) where
    capped_not :
        (a : Trust)
        → trust_leb a mem.provenance_trust ≡ false
        → (conclude ex mem ev suffix (granted a)).applied ≡ true
    unfolding conclude
    capped_not a h = rw (conclude, h) refl

    not_capped :
        (a : Trust)
        → (conclude ex mem ev suffix (granted a)).applied ≡ true
        → trust_leb a mem.provenance_trust ≡ false
    unfolding conclude refusal
    not_capped a applied = elim (Bool-cases (trust_leb a mem.provenance_trust)) [
      | inl b ↦ absurd (cc (rw (conclude, b) at applied))
      | inr b ↦ b
    ]

    -- How a result stands to a trust.
    abbrev Lifts : UpgradeResult → Trust → Type 0
    Lifts r after =
        ((r.applied ≡ true)
          × (r.trust_after ≡ after)
          × (r.new_chunk ≡ some (derive_chunk ex mem after suffix)))
        ⊎ ((r.applied ≡ false) × (r.trust_after ≡ mem.provenance_trust) × (r.new_chunk ≡ none))

    conclude-Lifts : (g : Grant) (a : Trust) → g ≡ granted a → Lifts (conclude ex mem ev suffix g) a
    unfolding conclude refusal
    conclude-Lifts (refused reason) a e = absurd (cc e)
    conclude-Lifts (granted b) a e = elim (Bool-cases (trust_leb b mem.provenance_trust)) [
      | inl h ↦ inr (rw (conclude, h) refl, rw (conclude, h) refl, rw (conclude, h) refl)
      | inr h ↦
          let same : b ≡ a = cc e in
          rw (sym same) (inl (rw (conclude, h) refl, rw (conclude, h) refl, rw (conclude, h) refl))
    ]

    abbrev result : UpgradeResult
    result = try_upgrade ex up mem ev sig_verifier content suffix

    -- An upgrade is applied exactly when its evidence is what its kind has to be and the memory is
    -- not yet at T3: a person's verified signature, two independent sources that agree, a known
    -- validator that accepts the content, or matched memories that all exist and corroborate it.
    pub try_upgrade-applied_iff :
        (result.applied ≡ true) ↔ (Warranted ev.etype × (trust_level mem.provenance_trust < 3))
    unfolding try_upgrade conclude refusal
    try_upgrade-applied_iff = (
      λ applied. elim (Grant-cases (grant ex up mem ev sig_verifier content ev.etype)) [
        | inl (reason, e) ↦ absurd (cc (rw (try_upgrade, e) at applied))
        | inr (a, e) ↦
            let (warrant, at) = grant-Warranted ev.etype a e in
            (
              warrant,
              (rises ev.etype).1 (rw (sym at) (not_capped a (rw (try_upgrade, e) at applied))),
            )
      ],
      λ (warrant, low).
          rw (try_upgrade, Warranted-grant ev.etype warrant)
            (capped_not (target ev.etype) ((rises ev.etype).0 low)),
    )

    -- An applied upgrade lifts to T3 on a person's word and by one level on any other evidence; the
    -- new version has that trust, names the original as what it was upgraded from and as the last of
    -- its chain, and differs from it in nothing else but its identifier. A refused upgrade leaves
    -- the trust and makes no version.
    pub try_upgrade-new_chunk :
        ((result.applied ≡ true)
          × (result.trust_after ≡ target ev.etype)
          × (result.new_chunk ≡ some (derive_chunk ex mem (target ev.etype) suffix)))
        ⊎ ((result.applied ≡ false)
            × (result.trust_after ≡ mem.provenance_trust)
            × (result.new_chunk ≡ none))
    unfolding try_upgrade conclude refusal
    try_upgrade-new_chunk = elim (Grant-cases (grant ex up mem ev sig_verifier content ev.etype)) [
      | inl (reason, e) ↦
          inr (rw (try_upgrade, e) refl, rw (try_upgrade, e) refl, rw (try_upgrade, e) refl)
      | inr (a, e) ↦
          let (warrant, at) = grant-Warranted ev.etype a e in
          conclude-Lifts (grant ex up mem ev sig_verifier content ev.etype) (target ev.etype)
            (rw (sym at) e)
    ]

    -- A session's trust changes through the gate only where the upgrade's evidence is what its kind
    -- has to be, the memory was below T3, and the receipt of the anchor is there and verified; the
    -- session then has the higher of its trust and the trust that was warranted, and everything else
    -- of it is as it was.
    pub apply_to_session-Warranted :
        (sess raised : Session) (receipt : Option AnchorReceipt)
        → apply_to_session sess result receipt ≡ ok raised
        → Warranted ev.etype
          × (trust_level mem.provenance_trust < 3)
          × (is_anchored receipt ≡ true)
          × (raised ≡ record sess { t_eff = max_trust sess.t_eff (target ev.etype) })
    unfolding apply_to_session raise_trust_via_gate
    apply_to_session-Warranted sess raised receipt h = elim try_upgrade-new_chunk [
      | inl (applied, after, chunk) ↦
          let (warrant, low) = try_upgrade-applied_iff.0 applied in
          elim (Bool-cases (is_anchored receipt)) [
            | inl b ↦ (warrant, low, b, cc (rw (apply_to_session, applied, b, after) at h))
            | inr b ↦ absurd (cc (rw (apply_to_session, applied, b) at h))
          ]
      | inr (same, after, chunk) ↦ absurd (cc (rw (apply_to_session, same) at h))
    ]
