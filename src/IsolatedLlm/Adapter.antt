-- ===== src/IsolatedLlm/Adapter.antt =====
-- core/llm/constrained.py: the questions on a hidden memory, put to a language model. The model is an
-- argument: the text that it replies, or none where the call raises.
use text.Mathlib.TextEquality.{eq_iff}
use trustmem.Prelude.{
  min, max, String, Bool, true, false, ◌&&◌, not, Option, none, some, List, [], ◌∷◌, ◌++◌, ◌≡◌,
  refl, nonempty, contains, Option-cases, inl, inr, arith, if◌then◌else◌,
}
use trustmem.Result.{Result, ok, raise, key_error, value_error}
use trustmem.Vars.{VarHandle, VarStore, get}
use trustmem.IsolatedLlm.{ControlFlowBudget, consume}
use trustmem.IsolatedLlm.Queries.{
  Texts, Answer, truth, option, amount, ConstrainedAnswer, allows, Query, ask_bool, ask_enum,
  ask_number, type_of, var_of, question_of,
}
use trustmem.IsolatedLlm.Bounds.{Fits, no_answer, a_truth, an_option, an_amount, Proper}

pub record ConstrainedQueryAdapter : Type 0 where
  pub var_store : VarStore
  pub budget : ControlFlowBudget
  pub query_log : List ConstrainedAnswer

-- The first option that the reply names.
unfoldable pub named_option : (String → Bool) → List String → Option String
named_option names [] = none
named_option names (opt ∷ options) =
    let rest = named_option names options in if names opt then some opt else rest

abbrev first_or : String → List String → String
first_or text [] = text
first_or text (opt ∷ options) = opt

module _ (tx : Texts) where
  -- `_parse_answer`, of a reply that was stripped and put in lower case.
  unfoldable pub parse_answer : Query → String → Option Answer
  unfolding named_option
  parse_answer (ask_bool v t) text = some (
      truth (
        if contains text ("true" ∷ "yes" ∷ "是" ∷ [])
        then true
        else if contains text ("false" ∷ "no" ∷ "否" ∷ [])
        then false
        else tx.occurs_in "true" text && not (tx.occurs_in "false" text)))
  parse_answer (ask_enum v t options) text =
      elim (named_option (λ (o : String). tx.occurs_in (tx.lower o) text) options) [
        | none ↦ some (option (first_or text options))
        | some o ↦ some (option o)
      ]
  parse_answer (ask_number v t lo hi) text = elim (tx.first_number text) [
    | none ↦ none
    | some n ↦ some (amount (max lo (min hi n)))
  ]

  module _ (chat : VarHandle → Query → Option String) where
    unfoldable pub reply : VarHandle → Query → Option Answer
    unfolding parse_answer
    reply handle q = elim (chat handle q) [
      | none ↦ none
      | some raw ↦ parse_answer q (tx.lower (tx.strip raw))
    ]

    -- The end of `_query`, once the charge was tried.
    unfoldable pub conclude :
        ConstrainedQueryAdapter
        → VarHandle
        → Query
        → Bool
        → Result ConstrainedAnswer × ConstrainedQueryAdapter
    unfolding reply
    conclude ad handle q paid =
        let result : ConstrainedAnswer = record {
          var_id = var_of q;
          question = question_of q;
          answer = if paid then reply handle q else none;
          answer_type = type_of q;
          budget_consumed = if paid then 1 else 0;
          budget_remaining = ad.budget.remaining;
        } in
        (ok result, record ad { query_log = ad.query_log ++ (result ∷ []) })

    unfoldable pub query :
        ConstrainedQueryAdapter → Query → Result ConstrainedAnswer × ConstrainedQueryAdapter
    query ad q = elim (get ad.var_store (var_of q)) [
      | none ↦ (raise key_error, ad)
      | some handle ↦
          if not (allows handle (type_of q))
          then (raise value_error, ad)
          else conclude (record ad { budget = (consume ad.budget 1).0 }) handle q
              ((consume ad.budget 1).1)
    ]

  named_option-contains :
      (names : String → Bool) (options : List String) (o : String)
      → named_option names options ≡ some o
      → contains o options ≡ true
  unfolding named_option contains
  named_option-contains names [] o e = absurd (cc e)
  named_option-contains names (opt ∷ options) o e =
      ground (arith, e, named_option-contains names options o, eq_iff opt o)

  -- A list of options that is empty allows nothing.
  abbrev pub HasOptions : Query → Type 0
  HasOptions (ask_enum v t options) = nonempty options ≡ true
  HasOptions q = Unit

  -- Whatever the language model replies: where the range is not empty and there are options, what is
  -- read out of the reply is nothing, a truth value, one of the options, or a number of the range.
  pub parse_answer-Fits :
      (q : Query) (text : String) → Proper tx q → HasOptions q → Fits tx q (parse_answer q text)
  unfolding parse_answer contains
  parse_answer-Fits (ask_bool v t) text h k = a_truth
  parse_answer-Fits (ask_enum v t []) text h k = absurd (cc k)
  parse_answer-Fits (ask_enum v t (o ∷ options)) text h k =
      elim (Option-cases
        (named_option (λ (w : String). tx.occurs_in (tx.lower w) text) (o ∷ options))) [
          | inl e ↦ rw (parse_answer, e) (an_option (ground (arith, eq_iff o o)))
          | inr (w, e) ↦
              rw (parse_answer, e)
                (an_option (
                  named_option-contains (λ (w : String). tx.occurs_in (tx.lower w) text)
                    (o ∷ options) w e))
        ]
  parse_answer-Fits (ask_number v t lo hi) text h k = elim (Option-cases (tx.first_number text)) [
    | inl e ↦ rw (parse_answer, e) no_answer
    | inr (n, e) ↦ rw (parse_answer, e) (an_amount (omega arith) (omega arith))
  ]

  -- With no options the whole reply is the answer, whatever it says.
  pub parse_answer-unbounded :
      (v t text : String) → parse_answer (ask_enum v t []) text ≡ some (option text)
  unfolding parse_answer
  parse_answer-unbounded v t text = refl
