-- ===== src/Audit/Replay.antt =====
-- core/merkle.py: `replay_session` and `tamper_event` of the store. The variable of the environment
-- that opens `tamper_event` is an argument.
use trustmem.Prelude.{
  ℕ, ◌≤◌, String, Bool, true, false, ◌&&◌, ◌||◌, any, refl, ◌∙◌, Option, none, some, List, [], ◌∷◌,
  ◌≡◌, lookup, insert, str_eq, leb, All, All-mono, arith, Bool-cases, Option-cases, inl, inr,
  if◌then◌else◌,
}
use trustmem.Result.{Result, ok, raise, runtime_error}
use trustmem.Audit.{AuditEvent, Payload, MerkleStore, get_event, block_of}

-- `start <= e.at <= end`, where the bounds are given.
abbrev from : Option ℕ → ℕ → Bool
from none at = true
from (some start) at = leb start at

abbrev until : Option ℕ → ℕ → Bool
until none at = true
until (some end) at = leb at end

abbrev pub in_window : Option ℕ → Option ℕ → AuditEvent → Bool
in_window start end e = from start e.at && until end e.at

unfoldable pub replayed : MerkleStore → Option ℕ → Option ℕ → List String → List AuditEvent
replayed st start end [] = []
replayed st start end (id ∷ ids) =
    let rest = replayed st start end ids in
    elim (get_event st id) [
      | none ↦ rest
      | some e ↦ if in_window start end e then e ∷ rest else rest
    ]

-- The sort by time, which keeps the order of equal times.
unfoldable pub put : AuditEvent → List AuditEvent → List AuditEvent
put e [] = e ∷ []
put e (x ∷ xs) = if leb e.at x.at then e ∷ x ∷ xs else x ∷ put e xs

unfoldable pub by_time : List AuditEvent → List AuditEvent
unfolding put
by_time [] = []
by_time (e ∷ es) = put e (by_time es)

abbrev pub ids_of : Option (List String) → List String
ids_of none = []
ids_of (some ids) = ids

unfoldable pub replay_session : MerkleStore → String → Option ℕ → Option ℕ → List AuditEvent
unfolding replayed by_time lookup
replay_session st session_id start end =
    by_time (replayed st start end (ids_of (lookup session_id st.session_index)))

-- The first event of that identifier gets the payload.
unfoldable pub rewrite_event : String → Payload → List AuditEvent → List AuditEvent × Bool
rewrite_event id payload [] = ([], false)
rewrite_event id payload (e ∷ es) =
    let rest = rewrite_event id payload es in
    if str_eq e.event_id id
    then (record e { payload = payload } ∷ es, true)
    else (e ∷ rest.0, rest.1)

unfoldable pub tamper_event : Bool → MerkleStore → String → Payload → Result (MerkleStore × Bool)
unfolding rewrite_event insert
tamper_event false st id payload = raise runtime_error
tamper_event true st id payload = elim (block_of st id) [
  | none ↦ ok (st, false)
  | some b ↦
      let (events, done) = rewrite_event id payload b.events in
      ok (record st { blocks = insert b.block_id (record b { events = events }) st.blocks }, done)
]

-- No event is before the one in front of it.
abbrev pub IsOrdered : List AuditEvent → Type 0
IsOrdered [] = Unit
IsOrdered (e ∷ es) = All (λ x. e.at ≤ x.at) es × IsOrdered es

put-All :
    (P : AuditEvent → Type 0) (e : AuditEvent) (es : List AuditEvent)
    → P e
    → All P es
    → All P (put e es)
unfolding put
put-All P e [] p h = (p, tt)
put-All P e (x ∷ xs) p h = elim (Bool-cases (leb e.at x.at)) [
  | inl b ↦ rw (put, b) (p, h)
  | inr b ↦ rw (put, b) (h.0, put-All P e xs p h.1)
]

put-IsOrdered : (e : AuditEvent) (es : List AuditEvent) → IsOrdered es → IsOrdered (put e es)
unfolding put
put-IsOrdered e [] h = (tt, tt)
put-IsOrdered e (x ∷ xs) h = elim (Bool-cases (leb e.at x.at)) [
  | inl b ↦
      let first : e.at ≤ x.at = ground (arith, b) in
      rw (put, b)
        (
          (
            first,
            All-mono (λ y. x.at ≤ y.at) (λ y. e.at ≤ y.at) (λ y k. omega (arith, first, k)) xs h.0,
          ),
          h,
        )
  | inr b ↦
      let first : x.at ≤ e.at = ground (arith, b) in
      rw (put, b) (put-All (λ y. x.at ≤ y.at) e xs first h.0, put-IsOrdered e xs h.1)
]

by_time-IsOrdered : (es : List AuditEvent) → IsOrdered (by_time es)
unfolding by_time
by_time-IsOrdered [] = tt
by_time-IsOrdered (e ∷ es) = put-IsOrdered e (by_time es) (by_time-IsOrdered es)

module _ (p : AuditEvent → Bool) where
  any-put : (e : AuditEvent) (es : List AuditEvent) → any p (put e es) ≡ (p e || any p es)
  unfolding put
  any-put e [] = refl
  any-put e (x ∷ xs) = ground (arith, any-put e xs)

  any-by_time : (es : List AuditEvent) → any p (by_time es) ≡ any p es
  unfolding by_time
  any-by_time [] = refl
  any-by_time (e ∷ es) = ground (arith, any-put e (by_time es), any-by_time es)

  -- Whether the store has an event of the identifier, within the bounds, that passes the test.
  abbrev pub passes : Option ℕ → Option ℕ → Option AuditEvent → Bool
  passes start end none = false
  passes start end (some e) = in_window start end e && p e

  any-replayed :
      (st : MerkleStore) (start end : Option ℕ) (ids : List String)
      → any p (replayed st start end ids) ≡ any (λ id. passes start end (get_event st id)) ids
  unfolding replayed
  any-replayed st start end [] = refl
  any-replayed st start end (id ∷ ids) =
      let rest = any-replayed st start end ids in
      elim (Option-cases (get_event st id)) [
        | inl e ↦ rw (replayed, e) rest
        | inr (found, e) ↦ rw (replayed, e) (ground (arith, rest))
      ]

-- What is replayed of a session is in the order of time, and is what the store has of it within the
-- bounds that are given: an event that passes a test, whatever the test, is replayed exactly when
-- one of the session's identifiers names such an event in the store.
pub replay_session-IsOrdered :
    (st : MerkleStore) (session_id : String) (start end : Option ℕ) (p : AuditEvent → Bool)
    → IsOrdered (replay_session st session_id start end)
      × (any p (replay_session st session_id start end)
          ≡ any
              (λ id. passes p start end (get_event st id))
              (ids_of (lookup session_id st.session_index)))
unfolding replay_session
replay_session-IsOrdered st session_id start end p =
    let ids = ids_of (lookup session_id st.session_index) in
    (
      by_time-IsOrdered (replayed st start end ids),
      any-by_time p (replayed st start end ids) ∙ any-replayed p st start end ids,
    )
