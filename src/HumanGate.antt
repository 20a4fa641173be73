-- ===== src/HumanGate.antt =====
-- core/human_gate.py: the requests that wait for a human. A call under the lock is one step; the
-- second half of `wait` is the step that takes the answer, with what the event's `wait` returned.
-- Of a request, the fields that are only shown are left out.
pub mod FailClosed
use trustmem.Prelude.{
  String, Bool, true, false, Option, none, some, List, [], ◌∷◌, ◌++◌, if◌then◌else◌, str_eq, lookup,
  insert, length, ℕ,
}

pub record HumanRequest : Type 0 where
  pub request_id : String
  pub kind : String
  pub agent_id : String
  pub tool_name : Option String
  pub action_fingerprint : String

pub record Outcome : Type 0 where
  pub decision : String
  pub reason : String

-- The result of a pending request is there once its event is set.
pub record HumanGate : Type 0 where
  pub pending : List (String × Option Outcome)
  pub new : List HumanRequest

abbrev pub empty_gate : HumanGate
empty_gate = record { pending = []; new = [] }

abbrev pub denied : String → Outcome
denied why = record { decision = "deny"; reason = why }

unfoldable pub submit : HumanGate → HumanRequest → HumanGate
submit g r = record { pending = insert r.request_id none g.pending; new = g.new ++ r ∷ [] }

-- `d.pop(k, None)` for a dictionary, whose keys are distinct.
unfoldable pub discard : String → List (String × Option Outcome) → List (String × Option Outcome)
discard k [] = []
discard k ((j, o) ∷ m) = let rest = discard k m in if str_eq j k then rest else (j, o) ∷ rest

-- The answer of `wait` where the request is not pending.
abbrev pub absent : Outcome
absent = denied "请求不存在或已过期"

-- The start of `wait`: whether it goes on to block.
unfoldable pub wait_start : HumanGate → String → Option Outcome
wait_start g request_id = elim (lookup request_id g.pending) [
  | none ↦ some absent
  | some item ↦ none
]

-- The answer when the event was set, and a denial after the time or with no answer.
abbrev pub answer : Bool → Option (Option Outcome) → Outcome
answer true (some (some o)) = o
answer got item = denied "超时未人工确认，默认拒绝"

-- The rest of `wait`.
unfoldable pub wait_finish : HumanGate → String → Bool → HumanGate × Outcome
wait_finish g request_id got =
    (record g { pending = discard request_id g.pending }, answer got (lookup request_id g.pending))

unfoldable pub resolve : HumanGate → String → Outcome → HumanGate × Bool
resolve g request_id o = elim (lookup request_id g.pending) [
  | none ↦ (g, false)
  | some item ↦ (record g { pending = insert request_id (some o) g.pending }, true)
]

unfoldable pub drain_new : HumanGate → HumanGate × List HumanRequest
drain_new g = (record g { new = [] }, g.new)

unfoldable pub pending_count : HumanGate → ℕ
pending_count g = length g.pending

-- A step of the threads that share the gate.
pub data Step : Type 0 where
  submits : HumanRequest → Step
  resolves : String → Outcome → Step
  finishes : String → Bool → Step
  drains : Step

unfoldable pub step : HumanGate → Step → HumanGate
step g (submits r) = submit g r
step g (resolves id o) = (resolve g id o).0
step g (finishes id got) = (wait_finish g id got).0
step g drains = (drain_new g).0

unfoldable pub run : HumanGate → List Step → HumanGate
run g [] = g
run g (s ∷ ss) = run (step g s) ss
