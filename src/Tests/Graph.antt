-- ===== src/Tests/Graph.antt =====
-- A concrete directed graph for the tests: the nodes and the edges, with the paths searched for up
-- to the number of nodes.
use trustmem.Prelude.{
  ℕ, zero, suc, ◌≡◌, refl, String, Bool, false, ◌&&◌, ◌||◌, not, List, [], ◌∷◌, arith, any, add,
  contains, contains-add, str_eq, str_eq_iff, if◌then◌else◌, length,
}
use trustmem.Topology.{Networkx}

pub record Graph : Type 0 where
  pub nodes : List String
  pub edges : List (String × String)

unfoldable pub filter : (String → Bool) → List String → List String
filter p [] = []
filter p (x ∷ xs) = let rest = filter p xs in if p x then x ∷ rest else rest

pub contains-filter :
    (p : String → Bool) (x : String) (xs : List String)
    → contains x (filter p xs) ≡ (contains x xs && p x)
unfolding contains filter
contains-filter p x [] = refl
contains-filter p x (y ∷ ys) = ground (arith, contains-filter p x ys, str_eq_iff y x, same)
  where
    same : y ≡ x → p y ≡ p x
    same e = λ i. p (e i)

unfoldable pub reach : ℕ → List (String × String) → String → String → Bool
reach zero es x y = false
reach (suc n) es x y = any (λ e. str_eq e.0 x && (str_eq e.1 y || reach n es e.1 y)) es

-- A path between two different nodes of the graph.
unfoldable pub path : Graph → String → String → Bool
path g x y =
    contains x g.nodes
    && contains y g.nodes
    && not (str_eq x y)
    && reach (length g.nodes) g.edges x y

pub converse :
    (g : Graph) (x y : String)
    → contains x (filter (λ z. path g z y) g.nodes) ≡ contains y (filter (λ z. path g x z) g.nodes)
unfolding path
converse g x y = ground (
  arith,
  contains-filter (λ z. path g z y) x g.nodes,
  contains-filter (λ z. path g x z) y g.nodes,
)

abbrev pub graph : Networkx
graph = record {
  DiGraph = Graph;
  empty = record { nodes = []; edges = [] };
  add_node = λ a g. record g { nodes = add a g.nodes };
  add_edge = λ a b g. record { nodes = add a (add b g.nodes); edges = (a, b) ∷ g.edges };
  has_node = λ g a. contains a g.nodes;
  predecessors = λ g a. filter (λ x. any (λ e. str_eq e.0 x && str_eq e.1 a) g.edges) g.nodes;
  successors = λ g a. filter (λ x. any (λ e. str_eq e.0 a && str_eq e.1 x) g.edges) g.nodes;
  ancestors = λ g y. filter (λ x. path g x y) g.nodes;
  descendants = λ g x. filter (λ y. path g x y) g.nodes;
  ancestors-descendants = converse;
  has_node-add_node = λ g a x. contains-add a x g.nodes;
  ancestors_has_node = λ g x y h. ground (arith, contains-filter (λ z. path g z y) x g.nodes);
  descendants_has_node = λ g x y h. ground (arith, contains-filter (λ z. path g y z) x g.nodes);
}
