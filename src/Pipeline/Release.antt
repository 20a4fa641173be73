-- ===== src/Pipeline/Release.antt =====
-- What one read of the pipeline releases, logs and charges.
use trustmem.Prelude.{
  ℕ, ◌+◌, ◌≡◌, refl, String, true, false, Option, none, some, List, [], ◌∷◌, arith, lookup-insert,
  str_eq_iff, if◌then◌else◌, inl, inr, Bool, Bool-cases,
}
use trustmem.Result.{Result, ok, raise, Result-cases}
use trustmem.Labels.{MemoryLabel, Trust}
use trustmem.Topology.{Networkx}
use trustmem.Verdict.{allow, Decision}
use trustmem.Pdp.Hard.{Pdp}
use trustmem.Pep.{commit}
use trustmem.Crypto.{CryptoClient, record_allow, is_allowed, decrypt, mark_decrypted}
use trustmem.Pipeline.Read.{
  Services, ReadWorld, ReadRequest, ReadResult, scope_mismatch, logged, fetch_ciphertext,
  signature_ok, dropped, unlock, release, with_ciphertext, read_content, hide_content, read_found,
  decide, act, read, read_all,
}

recorded : (c : CryptoClient) (id chunk : String) → is_allowed (record_allow c id chunk) id ≡ true
unfolding is_allowed record_allow
recorded c id chunk = ground (arith, lookup-insert id id chunk c.ledger, str_eq_iff id id)

module _ (sv : Services) where
  -- Whether a read that ended with an exception had got as far as the engine: the memory and its
  -- ciphertext are there, and the signature is good.
  abbrev signed : Result Bool → ℕ
  signed (raise e) = 0
  signed (ok b) = if b then 1 else 0

  abbrev got_far : Option MemoryLabel → Result (Option sv.Ciphertext) → ℕ
  got_far none f = 0
  got_far (some mem) (raise e) = 0
  got_far (some mem) (ok ct) = signed (signature_ok sv mem ct)

  -- The number of decryptions that go with a result: one for a released memory, and one for an
  -- exception that came from the engine.
  unfoldable pub tries : Option MemoryLabel → ReadRequest → Result (ReadResult sv) → ℕ
  tries found q (raise e) = got_far found (fetch_ciphertext sv q.chunk_id)
  tries found q (ok r) = if r.allowed then 1 else 0

  unlock_count :
      (q : ReadRequest) (mem : MemoryLabel) (d : Decision) (drop : Option (Trust × Trust))
      (w : ReadWorld) (ct : Option sv.Ciphertext)
      → fetch_ciphertext sv q.chunk_id ≡ ok ct
      → signature_ok sv mem ct ≡ ok true
      → (unlock sv q mem d drop w ct).0.client.decrypt_count
        ≡ w.client.decrypt_count + tries (some mem) q (unlock sv q mem d drop w ct).1
  unfolding unlock tries decrypt record_allow mark_decrypted logged
  unlock_count q mem d drop w ct f s =
      ground (arith, recorded w.client q.decision_id q.chunk_id, f, s)

  release_count :
      (q : ReadRequest) (mem : MemoryLabel) (d : Decision) (before : _) (w : ReadWorld)
      (ct : Option sv.Ciphertext)
      → fetch_ciphertext sv q.chunk_id ≡ ok ct
      → (release sv q mem d before w ct).0.client.decrypt_count
        ≡ w.client.decrypt_count + tries (some mem) q (release sv q mem d before w ct).1
  unfolding release tries logged
  release_count q mem d before w ct f =
      ground (arith, f, unlock_count q mem d (dropped sv before w.session.t_eff) w ct f)

  read_content_count :
      (q : ReadRequest) (mem : MemoryLabel) (d : Decision) (w : ReadWorld)
      → (read_content sv q mem d w).0.client.decrypt_count
        ≡ w.client.decrypt_count + tries (some mem) q (read_content sv q mem d w).1
  unfolding read_content with_ciphertext tries
  read_content_count q mem d w = elim (Result-cases (fetch_ciphertext sv q.chunk_id)) [
    | inl (e, f) ↦ ground (arith, f)
    | inr (ct, f) ↦
        let w' = record w { session = commit w.session d q.absorbs } in
        rw (read_content, f) (release_count q mem d w.session.t_eff w' ct f)
  ]

  -- The decryptions of reads one after the other.
  unfoldable pub tries_of : List ReadRequest → List (Result (ReadResult sv)) → ℕ
  tries_of [] rs = 0
  tries_of (q ∷ qs) [] = 0
  tries_of (q ∷ qs) (r ∷ rs) = tries (sv.get q.chunk_id) q r + tries_of qs rs

  module _ (nx : Networkx) (pdp : Pdp nx) where
    act_count :
        (q : ReadRequest) (mem : MemoryLabel) (d : Decision) (w : ReadWorld)
        → (act sv nx pdp q mem d w).0.client.decrypt_count
          ≡ w.client.decrypt_count + tries (some mem) q (act sv nx pdp q mem d w).1
    unfolding act tries hide_content logged
    act_count q mem d w = ground (arith, read_content_count q mem d w)

    -- One read decrypts when it comes back allowed, or with an exception of the engine.
    read_count :
        (q : ReadRequest) (w : ReadWorld)
        → (read sv nx pdp q w).0.client.decrypt_count
          ≡ w.client.decrypt_count + tries (sv.get q.chunk_id) q (read sv nx pdp q w).1
    unfolding read read_found tries logged
    read_count q w = ground (arith, found (sv.get q.chunk_id))
      where
        found :
            (m : Option MemoryLabel)
            → (read_found sv nx pdp q w m).0.client.decrypt_count
              ≡ w.client.decrypt_count + tries m q (read_found sv nx pdp q w m).1
        found none = omega arith
        found (some mem) =
            let p = decide sv nx pdp q mem w.session in
            act_count q mem p.0 (record w { session = p.1 })

    -- In any sequence of reads, whatever their requests and errors, the number of decryptions is
    -- the number of reads that come back allowed and of those that end with an exception although
    -- the memory and its ciphertext are there and the signature is good.
    pub read_all_count :
        (qs : List ReadRequest) (w : ReadWorld)
        → (read_all sv nx pdp qs w).0.client.decrypt_count
          ≡ w.client.decrypt_count + tries_of qs (read_all sv nx pdp qs w).1
    unfolding read_all tries_of
    read_all_count [] w = omega arith
    read_all_count (q ∷ qs) w =
        omega (arith, read_count q w, read_all_count qs (read sv nx pdp q w).0)

    -- The engine gives the plaintext, with its reason.
    abbrev Opens : ReadRequest → Option sv.Ciphertext → ReadResult sv → Type 0
    Opens q ct r = (reason : String) × (sv.decrypt_memory q.agent ct ≡ ok (r.plaintext, reason))

    -- What a released memory has behind it: it is in the store, the scope is committed, the decision
    -- on it is ALLOW, and its ciphertext is there with a good signature.
    abbrev pub IsReleased : ReadRequest → ReadWorld → ReadResult sv → Type 0
    IsReleased q w r =
        (mem : MemoryLabel) × (ct : Option sv.Ciphertext) × ((scope_mismatch q.scope q.anchor
            ≡ false)
          × (sv.get q.chunk_id ≡ some mem)
          × ((decide sv nx pdp q mem w.session).0.verdict ≡ allow)
          × (fetch_ciphertext sv q.chunk_id ≡ ok ct)
          × (signature_ok sv mem ct ≡ ok true)
          × Opens q ct r)

    unlock-Opens :
        (q : ReadRequest) (mem : MemoryLabel) (d : Decision) (drop : Option (Trust × Trust))
        (w : ReadWorld) (ct : Option sv.Ciphertext) (r : ReadResult sv)
        → (unlock sv q mem d drop w ct).1 ≡ ok r
        → Opens q ct r
    unfolding unlock decrypt
    unlock-Opens q mem d drop w ct r e = elim (Result-cases (sv.decrypt_memory q.agent ct)) [
      | inl (x, raised) ↦ absurd (ground (arith, e, raised))
      | inr ((plain, reason), given) ↦
          let same : r.plaintext ≡ plain =
            ground (arith, e, given, recorded w.client q.decision_id q.chunk_id) in
          (reason, rw (same, given) refl)
    ]

    released_signed :
        (q : ReadRequest) (mem : MemoryLabel) (d : Decision) (before : Trust) (w : ReadWorld)
        (ct : Option sv.Ciphertext) (r : ReadResult sv)
        → (release sv q mem d before w ct).1 ≡ ok r
        → r.allowed ≡ true
        → (signature_ok sv mem ct ≡ ok true) × Opens q ct r
    unfolding release
    released_signed q mem d before w ct r e a = elim (Result-cases (signature_ok sv mem ct)) [
      | inl (x, raised) ↦ absurd (ground (arith, e, raised))
      | inr (b, checked) ↦ elim (Bool-cases b) [
        | inl good ↦ (
          cc (checked, good),
          unlock-Opens q mem d (dropped sv before w.session.t_eff) w ct r
              (ground (arith, e, checked, good)),
        )
        | inr bad ↦ absurd (ground (arith, e, a, checked, bad))
      ]
    ]

    content_released :
        (q : ReadRequest) (mem : MemoryLabel) (d : Decision) (w : ReadWorld) (r : ReadResult sv)
        → (read_content sv q mem d w).1 ≡ ok r
        → r.allowed ≡ true
        → (ct : Option sv.Ciphertext) × ((fetch_ciphertext sv q.chunk_id ≡ ok ct)
            × (signature_ok sv mem ct ≡ ok true)
            × Opens q ct r)
    unfolding read_content with_ciphertext
    content_released q mem d w r e a =
        let w' = record w { session = commit w.session d q.absorbs } in
        elim (Result-cases (fetch_ciphertext sv q.chunk_id)) [
          | inl (x, f) ↦ absurd (ground (arith, e, f))
          | inr (ct, f) ↦
              let s = released_signed q mem d w.session.t_eff w' ct r (ground (arith, e, f)) a in
              (ct, (f, s.0, s.1))
        ]

    act_released :
        (q : ReadRequest) (mem : MemoryLabel) (d : Decision) (w : ReadWorld) (r : ReadResult sv)
        → (act sv nx pdp q mem d w).1 ≡ ok r
        → r.allowed ≡ true
        → (d.verdict ≡ allow) × ((read_content sv q mem d w).1 ≡ ok r)
    unfolding act hide_content
    act_released q mem d w r e a = ground arith

    -- A read that comes back allowed has everything behind it that a release needs, and gives what
    -- the engine decrypts.
    pub read-IsReleased :
        (q : ReadRequest) (w : ReadWorld) (r : ReadResult sv)
        → (read sv nx pdp q w).1 ≡ ok r
        → r.allowed ≡ true
        → IsReleased q w r
    unfolding read read_found
    read-IsReleased q w r e a = go (sv.get q.chunk_id) refl found.1
      where
        found :
            (scope_mismatch q.scope q.anchor ≡ false)
            × ((read_found sv nx pdp q w (sv.get q.chunk_id)).1 ≡ ok r)
        found = ground arith

        go :
            (m : Option MemoryLabel)
            → sv.get q.chunk_id ≡ m
            → (read_found sv nx pdp q w m).1 ≡ ok r
            → IsReleased q w r
        go none g k = absurd (ground arith)
        go (some mem) g k =
            let p = decide sv nx pdp q mem w.session in
            let w' = record w { session = p.1 } in
            let x = act_released q mem p.0 w' r k a in
            let y = content_released q mem p.0 w' r x.1 a in
            (mem, y.0, (found.0, g, x.0, y.1.0, y.1.1, y.1.2))
