-- ===== src/Pipeline/Storage/Calls.antt =====
-- Calls of the write pipeline one after the other, where the services may raise at every call.
use trustmem.Prelude.{
  ℕ, ◌+◌, ◌≡◌, refl, true, false, Option, none, some, List, [], ◌∷◌, ◌++◌, inl, inr, length,
  length-append, Bool-cases, arith, if◌then◌else◌,
}
use trustmem.Result.{Result, ok, raise, Result-cases}
use trustmem.Topology.{Networkx}
use trustmem.Session.{Session}
use trustmem.Decay.{Matcher, DecayResult}
use trustmem.Verdict.{Decision, Denial, scope_commit_mismatch, allowed, can_read_content}
use trustmem.Pdp.Hard.{Pdp}
use trustmem.Pdp.Write.{can_write}
use trustmem.Pipeline.Read.{scope_mismatch}
use trustmem.Pipeline.Write.{
  WriteServices, WriteRequest, WriteWorld, WriteResult, Stored, new_label, early_deny, conclude,
  persist, refusal, call_of, scope_checked, write, write_all,
}
use trustmem.Pipeline.Storage.{
  IsConsistent, refuse-IsConsistent, sign-IsConsistent, store-IsConsistent, sign_memory-cases,
  store_memory-cases,
}

module _ (sv : WriteServices) where
  -- The memories and the decisions that go with the end of a write.
  abbrev gain : Result (WriteResult sv) → ℕ
  gain (raise e) = 0
  gain (ok r) = if r.allowed then 1 else 0

  abbrev entry : Result (WriteResult sv) → ℕ
  entry (raise e) = 0
  entry (ok r) = 1

  unfoldable pub gains : List (Result (WriteResult sv)) → ℕ
  gains [] = 0
  gains (r ∷ rs) = gain r + gains rs

  unfoldable pub entries : List (Result (WriteResult sv)) → ℕ
  entries [] = 0
  entries (r ∷ rs) = entry r + entries rs

  abbrev Effect : WriteWorld sv → WriteWorld sv × Result (WriteResult sv) → Type 0
  Effect w p =
      IsConsistent sv p.0
      × (length p.0.memories ≡ length w.memories + gain p.1)
      × (length p.0.audit ≡ length w.audit + entry p.1)

  -- Whatever raises on the way of an allowed write.
  persist-Effect :
      (q : WriteRequest) (sess : Session) (d : Decision) (decay : DecayResult) (w : WriteWorld sv)
      → allowed d ≡ true
      → IsConsistent sv w
      → Effect w (persist sv q sess d decay w)
  unfolding persist conclude
  persist-Effect q sess d decay w a h =
      let mem = new_label q sess decay.trust_out in
      elim (Result-cases (sv.encrypt_memory q.content mem)) [
        | inl (e, failed) ↦ rw (persist, failed) (h, omega arith, omega arith)
        | inr (ct, sealed) ↦ elim (sign_memory-cases sv mem ct w) [
          | inl (e, failed) ↦ rw (persist, sealed, failed) (h, omega arith, omega arith)
          | inr (more, (signs, signed)) ↦
              let w' = record w { signatures = w.signatures ++ more } in
              let h' = sign-IsConsistent sv w more h in
              elim (store_memory-cases sv mem ct w') [
                | inl (e, failed) ↦
                    rw (persist, sealed, signs, failed) (h', omega arith, omega arith)
                | inr (s, (stores, same, placed)) ↦
                    rw (persist, sealed, signs, stores)
                      (
                        store-IsConsistent sv w' s d q.chunk_id q.call.input_mems (named s same)
                            (q.content, ct, (rw same sealed, placed, rw same signed)) a h',
                        length-append w.memories (s ∷ []),
                        length-append w.audit (d ∷ []),
                      )
              ]
        ]
      ]
    where
      named :
          (s : Stored sv)
          → s.label ≡ new_label q sess decay.trust_out
          → s.label.chunk_id ≡ q.chunk_id
      named s same = unfold new_label in rw same refl

  refuse-Effect :
      (w : WriteWorld sv) (d : Decision) (decay : Option DecayResult) (why : Option Denial)
      → allowed d ≡ false
      → IsConsistent sv w
      → Effect w (record w { audit = w.audit ++ d ∷ [] }, ok (refusal sv d decay why))
  refuse-Effect w d decay why refused h =
      (refuse-IsConsistent sv w d refused h, omega arith, length-append w.audit (d ∷ []))

  module _ (nx : Networkx) (m : Matcher) (pdp : Pdp nx) where
    write-Effect :
        (q : WriteRequest) (sess : Session) (w : WriteWorld sv)
        → IsConsistent sv w
        → Effect w (write sv nx m pdp q sess w)
    unfolding write
    write-Effect q sess w h =
        let p = can_write nx m pdp (call_of q) sess in
        let d = scope_checked q p.0 p.1 in
        elim (Bool-cases (scope_mismatch (some q.scope) q.anchor)) [
          | inl b ↦
              rw (write, b)
                (refuse-Effect w (early_deny q sess) none (some scope_commit_mismatch)
                  early_deny-refuses h)
          | inr b ↦ elim (Bool-cases (allowed d)) [
            | inl a ↦ rw (write, b, a) (persist-Effect q sess d p.1 w a h)
            | inr a ↦ rw (write, b, a) (refuse-Effect w d (some p.1) d.denied_by a h)
          ]
        ]
      where
        early_deny-refuses : allowed (early_deny q sess) ≡ false
        early_deny-refuses = unfold allowed in unfold early_deny in unfold can_read_content in refl

    -- From a consistent start on, whatever is written, in whatever order, and whichever of the
    -- services raise: every memory in the store was encrypted under its label, is there with its
    -- ciphertext unless the store takes none, and is signed where the pipeline has a signer; every
    -- link starts at a stored memory; and the log has as many decisions that allow as the store has
    -- memories. The store gains one memory for each write that comes back allowed, and the log one
    -- decision for each write that comes back without an exception.
    pub write_all-IsConsistent :
        (qs : List (WriteRequest × Session)) (w : WriteWorld sv)
        → IsConsistent sv w
        → IsConsistent sv (write_all sv nx m pdp qs w).0
          × (length (write_all sv nx m pdp qs w).0.memories
              ≡ length w.memories + gains (write_all sv nx m pdp qs w).1)
          × (length (write_all sv nx m pdp qs w).0.audit
              ≡ length w.audit + entries (write_all sv nx m pdp qs w).1)
    unfolding write_all gains entries
    write_all-IsConsistent [] w h = (h, omega arith, omega arith)
    write_all-IsConsistent ((q, sess) ∷ qs) w h =
        let now = write-Effect q sess w h in
        let rest = write_all-IsConsistent qs (write sv nx m pdp q sess w).0 now.0 in
        (rest.0, omega (arith, now, rest), omega (arith, now, rest))
