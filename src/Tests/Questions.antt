-- ===== src/Tests/Questions.antt =====
-- Questions on a hidden memory, by a model whose words are the texts themselves.
use trustmem.Prelude.{none, List, [], ◌∷◌, ◌≡◌, refl, str_eq, lookup, if◌then◌else◌}
use trustmem.Labels.{t1_low, l1_internal}
use trustmem.Verdict.{unknown}
use trustmem.Vars.{VarHandle, bool, enum, number, get}
use trustmem.IsolatedLlm.{budget_of}
use trustmem.IsolatedLlm.Queries.{
  Texts, IsolatedLlm, Query, ask_bool, ask_enum, ask_number, query, answer_charged, charge_query,
  finish, answer_of,
}
use trustmem.IsolatedLlm.Bounds.{ask_all, ResultFits, query-Fits}

abbrev texts : Texts
texts = record {
  strip = λ s. s;
  lower = λ s. s;
  occurs_in = str_eq;
  split = λ s. s ∷ [];
  count = λ w s. if str_eq w s then 1 else 0;
  first_number = λ s. none;
}

abbrev handle : VarHandle
handle = record {
  var_id = "v1";
  chunk_id = "m1";
  reason = unknown;
  constraint_types = bool ∷ enum ∷ number ∷ [];
  source_trust = t1_low;
  sensitivity = l1_internal;
}

abbrev llm : IsolatedLlm
llm = record {
  var_store = record { by_var = ("v1", handle) ∷ []; by_chunk = ("m1", handle) ∷ [] };
  budget = budget_of 2;
  session_store = none;
  session_id = "";
  content_store = ("v1", "high") ∷ [];
  query_log = [];
}

abbrev choice : Query
choice = ask_enum "v1" "how bad?" ("low" ∷ "high" ∷ [])

abbrev queries : List Query
queries = choice ∷ ask_bool "v2" "is it?" ∷ ask_number "v1" "how many?" 1 9 ∷ choice ∷ []

-- Two are granted, one has no handle, and for the last nothing is left.
two_granted : (ask_all texts llm queries).1 ≡ 2
unfolding ask_all query get lookup answer_charged charge_query finish answer_of
two_granted = refl

query-Fits_example : ResultFits texts choice ((query texts llm choice).0)
query-Fits_example = query-Fits texts llm choice tt
