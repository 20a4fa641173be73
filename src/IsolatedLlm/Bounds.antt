-- ===== src/IsolatedLlm/Bounds.antt =====
-- core/isolated_llm.py: how many questions are answered, and that an answer keeps to its constraint.
use text.Mathlib.TextEquality.{eq_iff}
use trustmem.Prelude.{
  ℕ, ◌+◌, ◌≤◌, String, Bool, true, false, Option, none, some, List, [], ◌∷◌, ◌≡◌, contains, str_eq,
  ◌||◌, Option-cases, Bool-cases, inl, inr, arith,
}
use trustmem.Result.{Result, ok, raise}
use trustmem.Vars.{VarHandle, get}
use trustmem.IsolatedLlm.Queries.{
  Texts, Answer, truth, option, amount, ConstrainedAnswer, IsolatedLlm, allows, best_option,
  answer_enum, answer_number, charge_query, Query, ask_bool, ask_enum, ask_number, type_of, var_of,
  answer_of, content_of, finish, answer_charged, query,
}

-- The bits that an answer was granted for.
abbrev pub granted : Result ConstrainedAnswer → ℕ
granted (raise e) = 0
granted (ok r) = r.budget_consumed

-- A paid charge takes one bit, an unpaid one none.
abbrev cost : Bool → ℕ
cost true = 1
cost false = 0

module _ (tx : Texts) where
  -- Questions one after the other: the model after them and the bits granted.
  unfoldable pub ask_all : IsolatedLlm → List Query → IsolatedLlm × ℕ
  ask_all llm [] = (llm, 0)
  ask_all llm (q ∷ queries) =
      let (result, llm') = query tx llm q in
      let (after, bits) = ask_all llm' queries in (after, granted result + bits)

  -- The answer is none, or keeps to what the question allows.
  pub data Fits : Query → Option Answer → Type 0 where
    no_answer : {q : Query} → Fits q none
    a_truth : {v t : String} {b : Bool} → Fits (ask_bool v t) (some (truth b))
    an_option :
        {v t o : String} {options : List String}
        → contains o options ≡ true
        → Fits (ask_enum v t options) (some (option o))
    an_amount :
        {v t : String} {n lo hi : ℕ}
        → lo ≤ n
        → n ≤ hi
        → Fits (ask_number v t lo hi) (some (amount n))

  -- A range is not empty.
  abbrev pub Proper : Query → Type 0
  Proper (ask_number v t lo hi) = lo ≤ hi
  Proper q = Unit

  abbrev pub ResultFits : Query → Result ConstrainedAnswer → Type 0
  ResultFits q (raise e) = Unit
  ResultFits q (ok r) = Fits q r.answer

  best_option-contains :
      (score : String → ℕ) (best : String) (n : ℕ) (options : List String)
      → (str_eq best (best_option score best n options)
          || contains (best_option score best n options) options)
        ≡ true
  unfolding best_option contains
  best_option-contains score best n [] = ground (arith, eq_iff best best)
  best_option-contains score best n (o ∷ options) = ground (
    arith,
    best_option-contains score o (score o) options,
    best_option-contains score best n options,
  )

  abbrev AnswerFits : Query → Result (Option Answer) → Type 0
  AnswerFits q (raise e) = Unit
  AnswerFits q (ok a) = Fits q a

  answer_number-bounds :
      (content : String) (lo hi : ℕ)
      → lo ≤ hi
      → (lo ≤ answer_number tx content lo hi) × (answer_number tx content lo hi ≤ hi)
  unfolding answer_number
  answer_number-bounds content lo hi h = elim (Option-cases (tx.first_number content)) [
    | inl e ↦ rw (answer_number, e) (omega arith, omega arith)
    | inr (n, e) ↦ rw (answer_number, e) (omega arith, omega arith)
  ]

  answer_of-Fits : (q : Query) (content : String) → Proper q → AnswerFits q (answer_of tx q content)
  unfolding answer_of answer_enum contains
  answer_of-Fits (ask_bool v t) content h = a_truth
  answer_of-Fits (ask_enum v t []) content h = tt
  answer_of-Fits (ask_enum v t (o ∷ options)) content h =
      let score = λ (w : String). tx.count (tx.lower w) (tx.lower content) in
      an_option (best_option-contains score o (score o) options)
  answer_of-Fits (ask_number v t lo hi) content h =
      let inside = answer_number-bounds content lo hi h in an_amount (inside.0) (inside.1)

  finish-Fits :
      (llm : IsolatedLlm) (q : Query) (n left : ℕ) (answer : Result (Option Answer))
      → AnswerFits q answer
      → ResultFits q ((finish tx llm q n left answer).0)
  unfolding finish
  finish-Fits llm q n left (raise e) h = tt
  finish-Fits llm q n left (ok a) h = h

  answer_charged-Fits :
      (llm : IsolatedLlm) (q : Query) (handle : VarHandle)
      → Proper q
      → ResultFits q ((answer_charged tx llm q handle).0)
  unfolding answer_charged
  answer_charged-Fits llm q handle h =
      let charged = (charge_query llm handle).0 in
      let left = (charge_query llm handle).2 in
      let content = content_of tx charged (var_of q) in
      elim (Bool-cases ((charge_query llm handle).1)) [
        | inl b ↦
            rw (answer_charged, b)
              (finish-Fits charged q 1 left (answer_of tx q content) (answer_of-Fits q content h))
        | inr b ↦ rw (answer_charged, b) (finish-Fits charged q 0 left (ok none) no_answer)
      ]

  -- Where a range that is asked for is not empty: an answer, if there is one, is a truth value, one of
  -- the options, or a number of the range, as the question asks.
  pub query-Fits : (llm : IsolatedLlm) (q : Query) → Proper q → ResultFits q ((query tx llm q).0)
  unfolding query
  query-Fits llm q h = elim (Option-cases (get llm.var_store (var_of q))) [
    | inl e ↦ rw (query, e) tt
    | inr (handle, e) ↦ elim (Bool-cases (allows handle (type_of q))) [
      | inl b ↦ rw (query, e, b) (answer_charged-Fits llm q handle h)
      | inr b ↦ rw (query, e, b) tt
    ]
  ]
