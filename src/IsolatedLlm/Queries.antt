-- ===== src/IsolatedLlm/Queries.antt =====
-- core/isolated_llm.py: `StubIsolatedLLM`, the questions on a hidden memory. What it reads of a text
-- is a record of operations; numbers are whole, so the middle of a range is rounded down. A call
-- returns its answer, or the exception, with the state it leaves.
use trustmem.Prelude.{
  ℕ, ◌+◌, ◌/◌, min, max, String, Bool, true, false, ◌&&◌, not, Option, none, some, List, [], ◌∷◌,
  ◌++◌, any, contains, intersects, lookup, insert, str_eq, ltb, ◌==◌, if◌then◌else◌,
}
use trustmem.Result.{Result, ok, raise, key_error, value_error, index_error}
use trustmem.Sessions.{SessionStore, consume_ctl}
use trustmem.Vars.{VarHandle, VarStore, get, ConstraintType, bool, enum, number}
use trustmem.IsolatedLlm.{ControlFlowBudget, consume}

-- `strip`, `lower`, `in`, `split`, `count`, and the first number of a text.
pub record Texts : Type 0 where
  pub strip : String → String
  pub lower : String → String
  pub occurs_in : String → String → Bool
  pub split : String → List String
  pub count : String → String → ℕ
  pub first_number : String → Option ℕ

pub data Answer : Type 0 where
  truth : Bool → Answer
  option : String → Answer
  amount : ℕ → Answer

pub record ConstrainedAnswer : Type 0 where
  pub var_id : String
  pub question : String
  pub answer : Option Answer
  pub answer_type : ConstraintType
  pub budget_consumed : ℕ
  pub budget_remaining : ℕ

pub record IsolatedLlm : Type 0 where
  pub var_store : VarStore
  pub budget : ControlFlowBudget
  pub session_store : Option SessionStore
  pub session_id : String
  pub content_store : List (String × String)
  pub query_log : List ConstrainedAnswer

unfoldable pub register_content : IsolatedLlm → String → String → IsolatedLlm
register_content llm var_id content = record llm {
  content_store = insert var_id content llm.content_store;
}

abbrev type_number : ConstraintType → ℕ
type_number bool = 0
type_number enum = 1
type_number number = 2

-- `answer_type in handle.constraint_types`
abbrev pub allows : VarHandle → ConstraintType → Bool
allows handle t = any (λ u. type_number u == type_number t) handle.constraint_types

abbrev indicators_true : List String
indicators_true =
    "是" ∷ "yes" ∷ "true" ∷ "存在" ∷ "有" ∷ "包含" ∷ "contains" ∷ "occur" ∷ "found" ∷ "detected"
    ∷ "elevated" ∷ "critical" ∷ []

abbrev indicators_false : List String
indicators_false =
    "否" ∷ "no" ∷ "false" ∷ "不存在" ∷ "无" ∷ "不" ∷ "没有" ∷ "none" ∷ "clear" ∷ "normal" ∷ "safe" ∷ []

abbrev stop_words : List String
stop_words =
    "is" ∷ "the" ∷ "are" ∷ "a" ∷ "an" ∷ "in" ∷ "of" ∷ "是否" ∷ "的" ∷ "了" ∷ "在" ∷ "有" ∷ "是" ∷ []

-- `set(words) - stop`
unfoldable pub without_words : List String → List String → List String
without_words [] stop = []
without_words (w ∷ words) stop =
    let rest = without_words words stop in if contains w stop then rest else w ∷ rest

-- The first of the options with the highest score, behind the best so far.
unfoldable pub best_option : (String → ℕ) → String → ℕ → List String → String
best_option score best best_score [] = best
best_option score best best_score (opt ∷ options) =
    if ltb best_score (score opt)
    then best_option score opt (score opt) options
    else best_option score best best_score options

module _ (tx : Texts) where
  unfoldable pub answer_bool : String → String → Bool
  unfolding without_words intersects
  answer_bool question content =
      let q = tx.lower question in
      let c = tx.lower content in
      let both = λ (w : String). tx.occurs_in w q && tx.occurs_in w c in
      if any both indicators_true
      then true
      else if any both indicators_false
      then false
      else intersects (without_words (tx.split q) stop_words) (tx.split c)

  unfoldable pub answer_enum : String → List String → Result String
  unfolding best_option
  answer_enum content [] = raise index_error
  answer_enum content (opt ∷ options) =
      let score = λ (o : String). tx.count (tx.lower o) (tx.lower content) in
      ok (best_option score opt (score opt) options)

  unfoldable pub answer_number : String → ℕ → ℕ → ℕ
  answer_number content min_val max_val = elim (tx.first_number content) [
    | none ↦ (min_val + max_val) / 2
    | some n ↦ max min_val (min max_val n)
  ]

-- The charge of one bit to the session, if the model has one, and to the model's own budget.
unfoldable pub charge_session : IsolatedLlm → VarHandle → IsolatedLlm × Bool
unfolding consume_ctl
charge_session llm handle = elim llm.session_store [
  | none ↦ (llm, true)
  | some sessions ↦
      let (sessions', paid) = consume_ctl sessions llm.session_id 1 (some handle.source_trust) in
      if str_eq llm.session_id ""
      then (llm, true)
      else (record llm { session_store = some sessions' }, paid)
]

unfoldable pub charge_budget : IsolatedLlm → IsolatedLlm × Bool
unfolding consume
charge_budget llm =
    let (budget', paid) = consume llm.budget 1 in (record llm { budget = budget' }, paid)

-- The charge of a question: whether it is paid, and the budget that is reported as left.
unfoldable pub charge_query : IsolatedLlm → VarHandle → IsolatedLlm × Bool × ℕ
unfolding charge_session charge_budget
charge_query llm handle =
    let (charged, session_paid) = charge_session llm handle in
    let (done, paid) = charge_budget charged in
    if session_paid then (done, paid, done.budget.remaining) else (charged, false, 0)

pub data Query : Type 0 where
  ask_bool : String → String → Query
  ask_enum : String → String → List String → Query
  ask_number : String → String → ℕ → ℕ → Query

abbrev pub type_of : Query → ConstraintType
type_of (ask_bool var_id question) = bool
type_of (ask_enum var_id question options) = enum
type_of (ask_number var_id question lo hi) = number

abbrev pub var_of : Query → String
var_of (ask_bool var_id question) = var_id
var_of (ask_enum var_id question options) = var_id
var_of (ask_number var_id question lo hi) = var_id

abbrev pub question_of : Query → String
question_of (ask_bool var_id question) = question
question_of (ask_enum var_id question options) = question
question_of (ask_number var_id question lo hi) = question

abbrev as_option : Result String → Result (Option Answer)
as_option (raise e) = raise e
as_option (ok o) = ok (some (option o))

module _ (tx : Texts) where
  unfoldable pub answer_of : Query → String → Result (Option Answer)
  unfolding answer_bool answer_enum answer_number
  answer_of (ask_bool var_id question) content = ok (some (truth (answer_bool tx question content)))
  answer_of (ask_enum var_id question options) content = as_option (answer_enum tx content options)
  answer_of (ask_number var_id question lo hi) content =
      ok (some (amount (answer_number tx content lo hi)))

  -- The end of a query: the answer is logged, unless making it raised.
  unfoldable pub finish :
      IsolatedLlm → Query → ℕ → ℕ → Result (Option Answer) → Result ConstrainedAnswer × IsolatedLlm
  finish llm q consumed remaining (raise e) = (raise e, llm)
  finish llm q consumed remaining (ok answer) =
      let result : ConstrainedAnswer = record {
        var_id = var_of q;
        question = question_of q;
        answer = answer;
        answer_type = type_of q;
        budget_consumed = consumed;
        budget_remaining = remaining;
      } in
      (ok result, record llm { query_log = llm.query_log ++ (result ∷ []) })

  -- `self._content_store.get(var_id, "")`
  abbrev pub content_of : IsolatedLlm → String → String
  content_of llm var_id = elim (lookup var_id llm.content_store) [
    | none ↦ ""
    | some content ↦ content
  ]

  -- A question that passed the checks on its handle.
  unfoldable pub answer_charged :
      IsolatedLlm → Query → VarHandle → Result ConstrainedAnswer × IsolatedLlm
  answer_charged llm q handle =
      let (charged, paid, remaining) = charge_query llm handle in
      if paid
      then finish charged q 1 remaining (answer_of q (content_of charged (var_of q)))
      else finish charged q 0 remaining (ok none)

  -- `query_bool`, `query_enum` and `query_number`
  unfoldable pub query : IsolatedLlm → Query → Result ConstrainedAnswer × IsolatedLlm
  query llm q = elim (get llm.var_store (var_of q)) [
    | none ↦ (raise key_error, llm)
    | some handle ↦
        if not (allows handle (type_of q))
        then (raise value_error, llm)
        else answer_charged llm q handle
  ]
