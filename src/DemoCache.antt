-- ===== src/DemoCache.antt =====
-- core/llm/cache.py: the cache in front of a language model. The two sections under the lock are two
-- steps, so that any interleaving of threads is a list of steps. The model is an argument: its reply
-- to a request whose call read the clock at a time, or none where it raises; so is the digest of a
-- request. Times are natural numbers.
use trustmem.Prelude.{
  ℕ, ◌+◌, ◌<◌, String, Option, none, some, List, [], ◌∷◌, ◌≡◌, refl, ltb, lookup, insert,
  lookup-insert, str_eq, str_eq_iff, length, arith, if◌then◌else◌, Option-cases, Bool-cases, inl,
  inr,
}
use trustmem.Engine.{remove}

lookup-remove :
    {V : Type 0} (key other : String) (d : List (String × V))
    → lookup other (remove key d) ≡ (if str_eq key other then none else lookup other d)
unfolding lookup remove
lookup-remove key other [] = ground arith
lookup-remove key other ((at, v) ∷ d) =
    ground (
      arith,
      lookup-remove key other d,
      str_eq_iff at key,
      str_eq_iff at other,
      str_eq_iff key other,
    )

-- An entry: when it expires, and the reply.
pub record Entry (Response : Type 0) : Type 0 where
  pub expiry : ℕ
  pub response : Response

module _ {Request Response : Type 0} (cache_key : Request → String)
    (backend : ℕ → Request → Option Response) (ttl : ℕ) where
  abbrev pub Store : Type 0
  Store = List (String × Entry Response)

  -- The first section: an entry that is still valid is the answer, and one that is not is deleted.
  unfoldable pub look : Request → ℕ → Store → Option Response × Store
  unfolding lookup remove
  look q now store = elim (lookup (cache_key q) store) [
    | none ↦ (none, store)
    | some entry ↦
        if ltb now entry.expiry
        then (some entry.response, store)
        else (none, remove (cache_key q) store)
  ]

  -- The second section.
  unfoldable pub keep : Request → ℕ → Response → Store → Store
  unfolding insert
  keep q now resp store =
      insert (cache_key q) (record { expiry = now + ttl; response = resp }) store

  -- After the first section found nothing: the model's reply is kept, and an exception leaves it.
  unfoldable pub ask : Request → ℕ → Store → Option Response × Store
  unfolding keep
  ask q now store = elim (backend now q) [
    | none ↦ (none, store)
    | some resp ↦ (some resp, keep q now resp store)
  ]

  -- A call that no other thread interrupts.
  unfoldable pub chat : Request → ℕ → Store → Option Response × Store
  unfolding look ask
  chat q now store =
      let (found, rest) = look q now store in
      elim found [ none ↦ ask q now rest | some r ↦ (some r, rest) ]

  unfoldable pub clear : Store → Store
  clear store = []

  unfoldable pub size : Store → ℕ
  size store = length store

  pub data Step : Type 0 where
    looks asks : Request → ℕ → Step
    clears : Step

  unfoldable pub step : Step → Store → Store
  unfolding look ask clear
  step (looks q now) store = (look q now store).1
  step (asks q now) store = (ask q now store).1
  step clears store = clear store

  unfoldable pub run : List Step → Store → Store
  unfolding step
  run [] store = store
  run (s ∷ steps) store = run steps (step s store)

  -- A reply that the model gave, to a request of the same key, at a time that is less than the time
  -- to live before now.
  abbrev pub IsFresh : String → ℕ → Response → Type 0
  IsFresh key now resp =
      (p : Request) × (t : ℕ) × (cache_key p ≡ key) × (backend t p ≡ some resp) × (now < t + ttl)

  abbrev Kept : Store → Type 0
  Kept store =
      (key : String) (e : Entry Response)
      → lookup key store ≡ some e
      → (p : Request) × (t : ℕ) × (cache_key p ≡ key)
        × (backend t p ≡ some e.response)
        × (e.expiry ≡ t + ttl)

  look-Kept : (q : Request) (now : ℕ) (store : Store) → Kept store → Kept ((look q now store).1)
  unfolding look
  look-Kept q now store k key e h =
      k key e (ground (arith, h, lookup-remove (cache_key q) key store))

  abbrev entry_of : ℕ → Response → Entry Response
  entry_of now resp = record { expiry = now + ttl; response = resp }

  -- What is found after the second section, where the model replied.
  lookup-ask :
      (q : Request) (now : ℕ) (store : Store) (key : String) (r : Response)
      → backend now q ≡ some r
      → lookup key ((ask q now store).1)
        ≡ (if str_eq (cache_key q) key then some (entry_of now r) else lookup key store)
  unfolding ask keep
  lookup-ask q now store key r back =
      rw (ask, back) (lookup-insert (cache_key q) key (entry_of now r) store)

  ask-Kept : (q : Request) (now : ℕ) (store : Store) → Kept store → Kept ((ask q now store).1)
  unfolding ask
  ask-Kept q now store k key e h = elim (Option-cases (backend now q)) [
    | inl silent ↦ k key e (ground (arith, h, silent))
    | inr (r, back) ↦
        let found = lookup-ask q now store key r back in
        elim (Bool-cases (str_eq (cache_key q) key)) [
          | inl same ↦
              let is_new : e ≡ entry_of now r = ground (arith, h, found, same) in
              (
                q,
                now,
                (str_eq_iff (cache_key q) key).0 same,
                rw (is_new, back) refl,
                rw is_new refl,
              )
          | inr other ↦ k key e (ground (arith, h, found, other))
        ]
  ]

  step-Kept : (s : Step) (store : Store) → Kept store → Kept (step s store)
  unfolding step clear lookup
  step-Kept (looks q now) store k = look-Kept q now store k
  step-Kept (asks q now) store k = ask-Kept q now store k
  step-Kept clears store k = λ key e h. absurd (cc h)

  run-Kept : (steps : List Step) (store : Store) → Kept store → Kept (run steps store)
  unfolding run
  run-Kept [] store k = k
  run-Kept (s ∷ steps) store k = run-Kept steps (step s store) (step-Kept s store k)

  none-Kept : Kept []
  unfolding lookup
  none-Kept key e h = absurd (cc h)

  -- A reply of the first section is that of an entry that has not expired.
  look_given :
      (q : Request) (now : ℕ) (store : Store) (resp : Response)
      → (look q now store).0 ≡ some resp
      → (e : Entry Response) × (lookup (cache_key q) store ≡ some e)
        × (e.response ≡ resp)
        × (now < e.expiry)
  unfolding look
  look_given q now store resp h = elim (Option-cases (lookup (cache_key q) store)) [
    | inl e ↦ absurd (ground (arith, h, e))
    | inr (entry, e) ↦ (entry, e, ground (arith, h, e), ground (arith, h, e))
  ]

  -- However threads interleave, and whatever of them clears the cache: a reply that the cache gives
  -- is one of the model's, to a request of the same key, at a time less than the time to live ago.
  pub look-IsFresh :
      (steps : List Step) (q : Request) (now : ℕ) (resp : Response)
      → (look q now (run steps [])).0 ≡ some resp
      → IsFresh (cache_key q) now resp
  look-IsFresh steps q now resp h =
      let (entry, e, given, valid) = look_given q now (run steps []) resp h in
      let (p, t, same, back, expires) = run-Kept steps [] none-Kept (cache_key q) entry e in
      (p, t, same, cc (back, given), omega (arith, valid, expires))
