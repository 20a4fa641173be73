-- ===== src/Decay/Laws.antt =====
-- The decay only lowers trust, and only verified claims avoid it.
use trustmem.Prelude.{
  ℕ, ◌-◌, ◌≤◌, ◌≡◌, ◌↔◌, ◌⊎◌, String, Bool, true, false, some, List, [], ◌∷◌, All, arith, min,
  All-mono, any, not, inl, inr,
}
use trustmem.Labels.{Trust, WriteOp, verbatim, extract, MemoryLabel}
use trustmem.Labels.Lattice.{
  trust_level, meet_trust, trusts, trust_level-le, trust_level-trust_of, meet_trust-le,
}
use trustmem.Decay.{
  Matcher, Evidence, overlap_ratio, delta_of, best_overlap, any_too_long, verify_op, compute_trust,
}

module _ (m : Matcher) where
  trust_level-compute_trust :
      (ms : List MemoryLabel) (a : Trust) (op : WriteOp) (ev : Evidence)
      → trust_level (compute_trust m ms a op ev).trust_out
        ≡ min (trust_level (meet_trust (trusts ms))) (trust_level a)
          - delta_of (verify_op m op ev).0
  unfolding compute_trust
  trust_level-compute_trust ms a op ev = trust_level-trust_of _ (omega (arith, trust_level-le a))

  All-trusts :
      (n : ℕ) (ms : List MemoryLabel)
      → All (λ t. n ≤ trust_level t) (trusts ms)
      → All (λ x. n ≤ trust_level x.provenance_trust) ms
  All-trusts n [] h = tt
  All-trusts n (x ∷ xs) h = (h.0, All-trusts n xs h.1)

  abbrev pub overlaps : String → String → Bool
  overlaps out s = not (m.below_threshold (overlap_ratio m s out))

  best_overlap-any :
      (ts : List String) (out : String)
      → m.below_threshold (best_overlap m ts out) ≡ not (any (overlaps out) ts)
  unfolding best_overlap
  best_overlap-any [] out = m.zero_below
  best_overlap-any (s ∷ []) out = ground arith
  best_overlap-any (s ∷ t ∷ ts) out = ground (
    arith,
    best_overlap-any (t ∷ ts) out,
    m.max_below (overlap_ratio m s out) (best_overlap m (t ∷ ts) out),
  )

  -- The two ways to escape the decay: a quotation whose texts are within the limit and whose overlap
  -- with one input reaches the threshold, and an extraction whose schema was checked.
  abbrev pub Escapes : WriteOp → Evidence → Type 0
  Escapes op ev =
      ((op ≡ verbatim)
        × (any_too_long m ev ≡ false)
        × (any (overlaps ev.output_text) ev.input_texts ≡ true))
      ⊎ ((op ≡ extract) × (ev.schema_ok ≡ some true))

  -- A write escapes the decay exactly in two ways: a quotation whose texts are within the limit and
  -- whose overlap with one input reaches the threshold, and an extraction whose schema was checked.
  pub delta_zero_iff :
      (op : WriteOp) (ev : Evidence)
      → (delta_of (verify_op m op ev).0 ≡ 0) ↔ (
          ((op ≡ verbatim)
            × (any_too_long m ev ≡ false)
            × (any (overlaps ev.output_text) ev.input_texts ≡ true))
          ⊎ ((op ≡ extract) × (ev.schema_ok ≡ some true)))
  unfolding delta_of verify_op
  delta_zero_iff verbatim ev = ground (arith, best_overlap-any ev.input_texts ev.output_text)
  delta_zero_iff op ev = ground arith

  delta_of-cases : (op : WriteOp) → (delta_of op ≡ 0) ⊎ (delta_of op ≡ 1)
  unfolding delta_of
  delta_of-cases op = ground arith

  -- The trust that a write is given is at most the writer's level in the session and at most that
  -- of every input. It is the least of them where the write escapes the decay: by a quotation whose
  -- texts are within the limit and whose overlap with one input reaches the threshold, or by an
  -- extraction whose schema was checked. Otherwise it is one level below the least, or T0.
  pub compute_trust-le :
      (ms : List MemoryLabel) (a : Trust) (op : WriteOp) (ev : Evidence)
      → (trust_level (compute_trust m ms a op ev).trust_out ≤ trust_level a)
        × All
            (λ x.
              trust_level (compute_trust m ms a op ev).trust_out ≤ trust_level x.provenance_trust)
            ms
        × ((Escapes op ev
              × (trust_level (compute_trust m ms a op ev).trust_out
                  ≡ min (trust_level (meet_trust (trusts ms))) (trust_level a)))
            ⊎ ((¬ Escapes op ev)
                × (trust_level (compute_trust m ms a op ev).trust_out
                    ≡ min (trust_level (meet_trust (trusts ms))) (trust_level a) - 1)))
  compute_trust-le ms a op ev =
      let e = trust_level-compute_trust ms a op ev in
      let zero_iff = delta_zero_iff op ev in
      (
        omega (arith, e),
        All-trusts _ ms
            (All-mono _ _ (λ t h. omega (arith, e)) (trusts ms) (meet_trust-le (trusts ms))),
        elim (delta_of-cases (verify_op m op ev).0) [
          | inl none_lost ↦ inl (zero_iff.0 none_lost, omega (arith, e, none_lost))
          | inr one_lost ↦
              inr ((λ k. omega (arith, zero_iff.1 k, one_lost)), omega (arith, e, one_lost))
        ],
      )
