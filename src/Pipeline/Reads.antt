-- ===== src/Pipeline/Reads.antt =====
-- What a read of the pipeline leaves in the log and in the session, over a batch.
use trustmem.Prelude.{
  ℕ, ◌≡◌, refl, sym, String, false, Option, none, some, List, [], ◌∷◌, ◌++◌, arith, lookup,
  lookup-insert, insert, str_eq_iff, if◌then◌else◌,
}
use trustmem.Result.{Result, ok, raise}
use trustmem.Labels.{MemoryLabel, AgentLabel, Trust}
use trustmem.Topology.{Networkx}
use trustmem.Scope.{TaskScope}
use trustmem.Session.{Session}
use trustmem.Verdict.{hide, scope_commit_mismatch, Decision}
use trustmem.Pdp.Hard.{Pdp}
use trustmem.Pdp.Read.{can_read, can_read_scoped}
use trustmem.Pdp.Interval.{InScope, commit-InScope, can_read_scoped_neutral}
use trustmem.Pep.{commit}
use trustmem.Vars.{VarHandle, get, resolve, store}
use trustmem.Crypto.{decrypt}
use trustmem.Pipeline.Read.{
  Services, ReadWorld, ReadRequest, ReadResult, scope_mismatch, early_deny, logged, handle_of,
  fetch_ciphertext, release, with_ciphertext, read_content, hide_content, decide, act, read_found,
  read, read_many, batch_request,
}

append-nil {ℓ} : {A : Type ℓ} → (xs : List A) → xs ++ [] ≡ xs
append-nil [] = refl
append-nil (x ∷ xs) = λ i. x ∷ append-nil xs i

module _ (sv : Services) where
  -- The decisions that a result has in the log: none for an error and for a memory not found, which
  -- the code does not log, and otherwise its own.
  unfoldable pub log_entries : Option MemoryLabel → Result (ReadResult sv) → List Decision
  log_entries found (raise e) = []
  log_entries none (ok r) = []
  log_entries (some mem) (ok r) = r.decision ∷ []

  release_log :
      (q : ReadRequest) (mem : MemoryLabel) (d : Decision) (before : Trust) (w : ReadWorld)
      (ct : Option sv.Ciphertext)
      → (release sv q mem d before w ct).0.audit
        ≡ w.audit ++ log_entries (some mem) (release sv q mem d before w ct).1
  unfolding release log_entries decrypt logged
  release_log q mem d before w ct = ground (arith, append-nil w.audit)

  release_session :
      (q : ReadRequest) (mem : MemoryLabel) (d : Decision) (before : Trust) (w : ReadWorld)
      (ct : Option sv.Ciphertext)
      → (release sv q mem d before w ct).0.session ≡ w.session
  unfolding release decrypt logged
  release_session q mem d before w ct = ground arith

  content_session :
      (q : ReadRequest) (mem : MemoryLabel) (d : Decision) (w : ReadWorld)
      → (read_content sv q mem d w).0.session ≡ commit w.session d q.absorbs
  unfolding read_content with_ciphertext
  content_session q mem d w = go (fetch_ciphertext sv q.chunk_id)
    where
      w' : ReadWorld
      w' = record w { session = commit w.session d q.absorbs }

      go :
          (f : Result (Option sv.Ciphertext))
          → (with_ciphertext sv q mem d w.session.t_eff w' f).0.session ≡ w'.session
      go (raise e) = refl
      go (ok ct) = release_session q mem d w.session.t_eff w' ct

  module _ (nx : Networkx) (pdp : Pdp nx) where
    -- Acting on a decision leaves the session of its commit.
    pub act_session :
        (q : ReadRequest) (mem : MemoryLabel) (d : Decision) (w : ReadWorld)
        → (act sv nx pdp q mem d w).0.session ≡ commit w.session d q.absorbs
    unfolding act hide_content logged commit
    act_session q mem d w = ground (arith, content_session q mem d w)

    content_log :
        (q : ReadRequest) (mem : MemoryLabel) (d : Decision) (w : ReadWorld)
        → (read_content sv q mem d w).0.audit
          ≡ w.audit ++ log_entries (some mem) (read_content sv q mem d w).1
    unfolding read_content with_ciphertext log_entries
    content_log q mem d w = go (fetch_ciphertext sv q.chunk_id)
      where
        w' : ReadWorld
        w' = record w { session = commit w.session d q.absorbs }

        go :
            (f : Result (Option sv.Ciphertext))
            → (with_ciphertext sv q mem d w.session.t_eff w' f).0.audit
              ≡ w.audit
                ++ log_entries (some mem) (with_ciphertext sv q mem d w.session.t_eff w' f).1
        go (raise e) = sym (append-nil w.audit)
        go (ok ct) = release_log q mem d w.session.t_eff w' ct

    act_log :
        (q : ReadRequest) (mem : MemoryLabel) (d : Decision) (w : ReadWorld)
        → (act sv nx pdp q mem d w).0.audit
          ≡ w.audit ++ log_entries (some mem) (act sv nx pdp q mem d w).1
    unfolding act hide_content logged log_entries
    act_log q mem d w = ground (arith, content_log q mem d w)

    -- What a read has to add to the log.
    abbrev pub expected_log : ReadRequest → Result (ReadResult sv) → List Decision
    expected_log q r =
        if scope_mismatch q.scope q.anchor
        then early_deny q scope_commit_mismatch ∷ []
        else log_entries (sv.get q.chunk_id) r

    -- A read adds exactly its decision to the log, and nothing where the memory is not found or the
    -- read ends with an error.
    pub read_log :
        (q : ReadRequest) (w : ReadWorld)
        → (read sv nx pdp q w).0.audit ≡ w.audit ++ expected_log q (read sv nx pdp q w).1
    unfolding read read_found logged log_entries
    read_log q w = ground (arith, found (sv.get q.chunk_id))
      where
        found :
            (m : Option MemoryLabel)
            → (read_found sv nx pdp q w m).0.audit
              ≡ w.audit ++ log_entries m (read_found sv nx pdp q w m).1
        found none = sym (append-nil w.audit)
        found (some mem) =
            let p = decide sv nx pdp q mem w.session in
            act_log q mem p.0 (record w { session = p.1 })

    module _ (guarded : pdp.bypass_all ≡ false) where
      -- One read in the scope keeps the session in the scope, with its errors.
      read-InScope :
          (scope : TaskScope) (q : ReadRequest) (w : ReadWorld)
          → q.scope ≡ some scope
          → InScope scope w.session
          → InScope scope (read sv nx pdp q w).0.session
      unfolding read read_found logged
      read-InScope scope q w h i = ground (arith, found (sv.get q.chunk_id))
        where
          decided :
              (mem : MemoryLabel)
              → decide sv nx pdp q mem w.session
                ≡ can_read_scoped nx pdp q.agent mem w.session scope q.now q.epoch_current
          decided mem = unfold decide in ground (arith, h)

          found : (m : Option MemoryLabel) → InScope scope (read_found sv nx pdp q w m).0.session
          found none = i
          found (some mem) =
              let p = decide sv nx pdp q mem w.session in
              rw (act_session q mem p.0 (record w { session = p.1 }), decided mem)
                (commit-InScope nx pdp q.agent mem w.session scope q.now q.epoch_current guarded
                  q.absorbs i)

      -- With the protection on, a batch of reads keeps a session that is in the scope in the scope,
      -- also where it ends with an error.
      pub read_many-InScope :
          (agent : AgentLabel) (scope : TaskScope) (now : ℕ) (xs : List (String × String × String))
          (w : ReadWorld)
          → InScope scope w.session
          → InScope scope (read_many sv nx pdp agent scope now xs w).0.session
      unfolding read_many batch_request
      read_many-InScope agent scope now [] w i = i
      read_many-InScope agent scope now (x ∷ xs) w i =
          let q = batch_request sv nx pdp agent scope now x in
          let p = read sv nx pdp q w in
          let j = read-InScope scope q w refl i in
          ground (arith, j, read_many-InScope agent scope now xs p.0 j)

    decide_session :
        (q : ReadRequest) (mem : MemoryLabel) (sess : Session)
        → pdp.bypass_all ≡ false
        → (decide sv nx pdp q mem sess).1
          ≡ record sess { consulted = (decide sv nx pdp q mem sess).1.consulted }
    unfolding decide
    decide_session q mem sess guarded = go q.scope
      where
        by : Option TaskScope → Decision × Session
        by o = elim o [
          | none ↦ (can_read nx pdp q.agent mem sess q.now q.epoch_current, sess)
          | some scope ↦ can_read_scoped nx pdp q.agent mem sess scope q.now q.epoch_current
        ]

        go : (o : Option TaskScope) → (by o).1 ≡ record sess { consulted = (by o).1.consulted }
        go none = refl
        go (some scope) =
            (can_read_scoped_neutral nx pdp q.agent mem sess scope q.now q.epoch_current guarded).0

    read_hide :
        (q : ReadRequest) (w : ReadWorld) (mem : MemoryLabel)
        → scope_mismatch q.scope q.anchor ≡ false
        → sv.get q.chunk_id ≡ some mem
        → (decide sv nx pdp q mem w.session).0.verdict ≡ hide
        → read sv nx pdp q w
          ≡ hide_content sv q mem
              (decide sv nx pdp q mem w.session).0
              (record w { session = (decide sv nx pdp q mem w.session).1 })
    unfolding read read_found act
    read_hide q w mem m g v = rw (m, g, read_found, act, v) refl

    -- What a hidden read gives: a result that is not allowed, with a handle and no content.
    abbrev pub ResultHides : ReadRequest → MemoryLabel → VarHandle → Result (ReadResult sv) → Type 0
    ResultHides q mem h result =
        (r : ReadResult sv) × ((result ≡ ok r)
          × (r.allowed ≡ false)
          × (r.decision.verdict ≡ hide)
          × (r.plaintext ≡ none)
          × (r.var_handle ≡ some h)
          × (r.memory ≡ some mem))

    abbrev pub IsHandleOf : ReadRequest → MemoryLabel → VarHandle → Type 0
    IsHandleOf q mem h =
        (h.var_id ≡ q.var_id)
        × (h.chunk_id ≡ q.chunk_id)
        × (h.source_trust ≡ mem.provenance_trust)
        × (h.sensitivity ≡ mem.sensitivity)

    -- A read whose decision is HIDE comes back not allowed, with a handle and no content, decrypts
    -- nothing, and leaves a session that differs at most in what was recorded as looked up. The
    -- handle names the chunk and carries its labels, and it is found under its own identifier and
    -- under the chunk's.
    pub read_hidden :
        (q : ReadRequest) (w : ReadWorld) (mem : MemoryLabel)
        → pdp.bypass_all ≡ false
        → scope_mismatch q.scope q.anchor ≡ false
        → sv.get q.chunk_id ≡ some mem
        → (decide sv nx pdp q mem w.session).0.verdict ≡ hide
        → (h : VarHandle) × (ResultHides q mem h (read sv nx pdp q w).1
            × IsHandleOf q mem h
            × (get (read sv nx pdp q w).0.vars q.var_id ≡ some h)
            × (resolve (read sv nx pdp q w).0.vars q.chunk_id ≡ some h)
            × ((read sv nx pdp q w).0.client ≡ w.client)
            × ((read sv nx pdp q w).0.session
                ≡ record w.session { consulted = (read sv nx pdp q w).0.session.consulted }))
    unfolding hide_content logged store get resolve handle_of
    read_hidden q w mem guarded m g v =
        let p = decide sv nx pdp q mem w.session in
        let h = handle_of q mem p.0 in
        rw (read_hide q w mem m g v) (
          h,
          (
            (_, (refl, refl, v, refl, refl, refl)),
            (refl, refl, refl, refl),
            found_at q.var_id h w.vars.by_var,
            found_at q.chunk_id h w.vars.by_chunk,
            refl,
            decide_session q mem w.session guarded,
          ),
        )
      where
        found_at :
            (k : String) (h : VarHandle) (m : List (String × VarHandle))
            → lookup k (insert k h m) ≡ some h
        found_at k h m = ground (arith, lookup-insert k k h m, str_eq_iff k k)
