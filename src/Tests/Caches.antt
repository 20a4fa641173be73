-- ===== src/Tests/Caches.antt =====
-- The cache in front of a model that repeats what it is asked, and tools without implementations.
use trustmem.Prelude.{ℕ, String, Option, some, List, [], ◌∷◌, ◌≡◌, refl, lookup, insert, true, none}
use trustmem.ToolRegistry.{
  Builtin, Kwargs, execute, get, register_builtin, register, definition_of, stub_of, stub,
}
use trustmem.ToolRegistry.Stubs.{register_all, execute-is_stub}
use trustmem.DemoCache.{Step, looks, asks, look, keep, ask, run, IsFresh, look-IsFresh}

abbrev echo : ℕ → String → Option String
echo t q = some q

abbrev steps : List (Step (λ q. q) echo 10)
steps = looks "a" 5 ∷ looks "b" 5 ∷ asks "b" 5 ∷ asks "a" 6 ∷ []

found_a : (look (λ q. q) echo 10 "a" 14 (run (λ q. q) echo 10 steps [])).0 ≡ some "a"
unfolding run look ask keep lookup
found_a = refl

look-IsFresh_example : IsFresh (λ q. q) echo 10 "a" 14 "a"
look-IsFresh_example = look-IsFresh (λ q. q) echo 10 steps "a" 14 "a" found_a

abbrev search_tool : Builtin
search_tool = record {
  name = "web_search";
  description = "";
  parameters = "";
  required_trust = none;
  requires_hitl = none;
  func = none;
}

abbrev tools : List Builtin
tools = search_tool ∷ record search_tool { name = "file_list" } ∷ []

abbrev kwargs : Kwargs
kwargs = ("query", "sinkhole") ∷ []

searched : (execute (register_all [] tools) "web_search" kwargs).success ≡ true
unfolding execute get register_all register_builtin register definition_of stub_of stub insert
    lookup
searched = refl

execute-is_stub_example : (execute (register_all [] tools) "web_search" kwargs).is_stub ≡ true
execute-is_stub_example = execute-is_stub tools "web_search" kwargs ((refl, (refl, tt))) searched
