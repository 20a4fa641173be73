-- ===== src/Pipeline/Storage.antt =====
-- What any sequence of writes leaves in the store, the signer, the provenance store and the log,
-- where the services may raise at every call.
pub mod Calls
use mathlib.Core.List.{append-nil}
use trustmem.Prelude.{
  ℕ, ◌+◌, ◌≡◌, refl, String, true, false, Option, none, some, List, [], ◌∷◌, ◌++◌, ◌⊎◌, inl, inr,
  length, length-append, map, All, All-mono, All-append, Any, Any-append_left, Any-append_last,
  Option-cases, Bool-cases, arith, if◌then◌else◌,
}
use trustmem.Result.{Error, type_error, Result, ok, raise, Result-cases}
use trustmem.Labels.{MemoryLabel}
use trustmem.Topology.{Networkx}
use trustmem.Session.{Session}
use trustmem.Decay.{Matcher, DecayResult}
use trustmem.Verdict.{Decision, Denial, scope_commit_mismatch, allowed, can_read_content}
use trustmem.Pdp.Hard.{Pdp}
use trustmem.Pdp.Write.{can_write}
use trustmem.Pipeline.Read.{scope_mismatch}
use trustmem.Pipeline.Write.{
  WriteServices, WriteRequest, WriteWorld, WriteResult, Stored, new_label, early_deny, sign_memory,
  put_memory, store_memory, conclude, persist, refusal, call_of, scope_checked, write, write_all,
}

-- The number of decisions that allow.
unfoldable pub allowances : List Decision → ℕ
allowances [] = 0
allowances (d ∷ ds) = (if allowed d then 1 else 0) + allowances ds

allowances-append :
    (ds : List Decision) (d : Decision)
    → allowances (ds ++ d ∷ []) ≡ allowances ds + (if allowed d then 1 else 0)
unfolding allowances
allowances-append [] d = omega arith
allowances-append (x ∷ ds) d = omega (arith, allowances-append ds d)

module _ (sv : WriteServices) where
  -- The signer, where there is one, has signed the label with the ciphertext, and the signature is
  -- kept under the chunk.
  abbrev pub SignedBy :
      Option (MemoryLabel → sv.Ciphertext → Result sv.Signature)
      → MemoryLabel
      → sv.Ciphertext
      → List (String × sv.Signature)
      → Type 0
  SignedBy none mem ct sigs = Unit
  SignedBy (some signer) mem ct sigs =
      Any (λ (p : String × sv.Signature). (p.0 ≡ mem.chunk_id) × (signer mem ct ≡ ok p.1)) sigs

  -- The ciphertext is stored, or the store does not take it.
  abbrev pub Placed : Stored sv → sv.Ciphertext → Type 0
  Placed s ct =
      (s.ciphertext ≡ some ct)
      ⊎ ((s.ciphertext ≡ none) × (sv.put_error s.label (some ct) ≡ some type_error))

  -- What a stored memory has behind it: a content that was encrypted under its label, the ciphertext
  -- in the store, or no ciphertext because the store takes none, and its signature.
  abbrev pub IsBacked : List (String × sv.Signature) → Stored sv → Type 0
  IsBacked sigs s =
      (content : String) × (ct : sv.Ciphertext) × ((sv.encrypt_memory content s.label ≡ ok ct)
        × Placed s ct
        × SignedBy sv.sign s.label ct sigs)

  -- Every memory is backed, every link starts at a stored memory, and the log has one decision that
  -- allows for each memory.
  pub record IsConsistent (w : WriteWorld sv) : Type 0 where
    pub backed : All (IsBacked w.signatures) w.memories
    pub linked :
        All
          (λ (l : String × String). Any (λ (s : Stored sv). s.label.chunk_id ≡ l.0) w.memories)
          w.links
    pub logged : allowances w.audit ≡ length w.memories

  SignedBy-append :
      (signer : Option (MemoryLabel → sv.Ciphertext → Result sv.Signature)) (mem : MemoryLabel)
      (ct : sv.Ciphertext) (sigs more : List (String × sv.Signature))
      → SignedBy signer mem ct sigs
      → SignedBy signer mem ct (sigs ++ more)
  SignedBy-append none mem ct sigs more h = tt
  SignedBy-append (some f) mem ct sigs more h = Any-append_left _ sigs more h

  -- A decision that refuses is added to the log.
  pub refuse-IsConsistent :
      (w : WriteWorld sv) (d : Decision)
      → allowed d ≡ false
      → IsConsistent w
      → IsConsistent (record w { audit = w.audit ++ d ∷ [] })
  refuse-IsConsistent w d refused h = record {
    backed = h.backed;
    linked = h.linked;
    logged = rw allowances-append (ground (arith, h.logged, refused));
  }

  pub sign-IsConsistent :
      (w : WriteWorld sv) (more : List (String × sv.Signature))
      → IsConsistent w
      → IsConsistent (record w { signatures = w.signatures ++ more })
  sign-IsConsistent w more h = record {
    backed =
        All-mono (IsBacked w.signatures) (IsBacked (w.signatures ++ more))
          (λ s (content, ct, (e, placed, signed)).
            (content, ct, (e, placed, SignedBy-append sv.sign s.label ct w.signatures more signed)))
          w.memories h.backed;
    linked = h.linked;
    logged = h.logged;
  }

  -- A memory that is backed, links from it, and a decision that allows.
  pub store-IsConsistent :
      (w : WriteWorld sv) (s : Stored sv) (d : Decision) (id : String) (mems : List MemoryLabel)
      → s.label.chunk_id ≡ id
      → IsBacked w.signatures s
      → allowed d ≡ true
      → IsConsistent w
      → IsConsistent (record w {
        memories = w.memories ++ s ∷ [];
        links = w.links ++ map (λ m. (id, m.chunk_id)) mems;
        audit = w.audit ++ d ∷ [];
      })
  store-IsConsistent w s d id mems named b a h = record {
    backed = All-append (IsBacked w.signatures) w.memories (s ∷ []) h.backed (b, tt);
    linked =
        All-append (Starts (w.memories ++ s ∷ [])) w.links (map (λ m. (id, m.chunk_id)) mems)
          (All-mono (Starts w.memories) (Starts (w.memories ++ s ∷ []))
            (λ l k.
              Any-append_left (λ (x : Stored sv). x.label.chunk_id ≡ l.0) w.memories (s ∷ []) k)
            w.links h.linked)
          (from_it mems);
    logged = rw (allowances-append, length-append) (ground (arith, h.logged, a));
  }
    where
      Starts : List (Stored sv) → String × String → Type 0
      Starts ms l = Any (λ (x : Stored sv). x.label.chunk_id ≡ l.0) ms

      from_it :
          (ms : List MemoryLabel)
          → All (Starts (w.memories ++ s ∷ [])) (map (λ m. (id, m.chunk_id)) ms)
      from_it [] = tt
      from_it (m ∷ ms) = (
        Any-append_last (λ (x : Stored sv). x.label.chunk_id ≡ id) w.memories s named,
        from_it ms,
      )

  -- The signer raises and keeps nothing, or its signature is kept.
  pub sign_memory-cases :
      (mem : MemoryLabel) (ct : sv.Ciphertext) (w : WriteWorld sv)
      → ((e : Error) × (sign_memory sv mem ct w ≡ (w, raise e)))
        ⊎ ((more : List (String × sv.Signature)) × ((sign_memory sv mem ct w
                ≡ (record w { signatures = w.signatures ++ more }, ok tt))
              × SignedBy sv.sign mem ct (w.signatures ++ more)))
  unfolding sign_memory
  sign_memory-cases mem ct w = go sv.sign refl
    where
      go :
          (signer : Option (MemoryLabel → sv.Ciphertext → Result sv.Signature))
          → sv.sign ≡ signer
          → ((e : Error) × (sign_memory sv mem ct w ≡ (w, raise e)))
            ⊎ ((more : List (String × sv.Signature)) × ((sign_memory sv mem ct w
                    ≡ (record w { signatures = w.signatures ++ more }, ok tt))
                  × SignedBy signer mem ct (w.signatures ++ more)))
      go none h = inr ([], (rw (sign_memory, h, append-nil w.signatures) refl, tt))
      go (some f) h = elim (Result-cases (f mem ct)) [
        | inl (e, raised) ↦ inl (e, rw (sign_memory, h, raised) refl)
        | inr (sig, given) ↦ inr (
          (mem.chunk_id, sig) ∷ [],
          (
            rw (sign_memory, h, given) refl,
            Any-append_last
                (λ (p : String × sv.Signature). (p.0 ≡ mem.chunk_id) × (f mem ct ≡ ok p.1))
                w.signatures (mem.chunk_id, sig) (refl, given),
          ),
        )
      ]

  -- The store raises and keeps nothing, or it has one memory more, without its ciphertext where it
  -- takes none.
  pub store_memory-cases :
      (mem : MemoryLabel) (ct : sv.Ciphertext) (w : WriteWorld sv)
      → ((e : Error) × (store_memory sv mem ct w ≡ (w, raise e)))
        ⊎ ((s : Stored sv) × ((store_memory sv mem ct w
                ≡ (record w { memories = w.memories ++ s ∷ [] }, ok tt))
              × (s.label ≡ mem)
              × Placed s ct))
  unfolding store_memory put_memory
  store_memory-cases mem ct w = go (sv.put_error mem (some ct)) refl
    where
      go :
          (x : Option Error)
          → sv.put_error mem (some ct) ≡ x
          → ((e : Error) × (store_memory sv mem ct w ≡ (w, raise e)))
            ⊎ ((s : Stored sv) × ((store_memory sv mem ct w
                    ≡ (record w { memories = w.memories ++ s ∷ [] }, ok tt))
                  × (s.label ≡ mem)
                  × Placed s ct))
      go none h = inr (
        record { label = mem; ciphertext = some ct },
        (rw (store_memory, put_memory, h) refl, refl, inl refl),
      )
      go (some type_error) h = elim (Option-cases (sv.put_error mem none)) [
        | inl taken ↦ inr (
          record { label = mem; ciphertext = none },
          (rw (store_memory, put_memory, h, taken) refl, refl, inr (refl, h)),
        )
        | inr (e, raised) ↦ inl (e, rw (store_memory, put_memory, h, raised) refl)
      ]
      go (some e) h = inl (e, rw (store_memory, put_memory, h) refl)
