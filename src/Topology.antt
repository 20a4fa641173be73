-- ===== src/Topology.antt =====
-- core/topology.py: the orchestration graph, edges from parent to child. `networkx` is not part of
-- the repository: its directed graphs are the section's parameter `nx`, with the documented
-- behaviour that the code relies on.
use trustmem.Prelude.{
  ◌≡◌, arith, ◌||◌, String, Bool, true, Option, none, some, List, [], ◌∷◌, if◌then◌else◌, str_eq,
  contains,
}

pub record Networkx : Type 1 where
  pub DiGraph : Type 0
  pub empty : DiGraph
  pub add_node : String → DiGraph → DiGraph
  pub add_edge : String → String → DiGraph → DiGraph
  pub has_node : DiGraph → String → Bool
  pub predecessors : DiGraph → String → List String
  pub successors : DiGraph → String → List String
  -- The nodes with a path to the node, and those with a path from it; both without the node.
  pub ancestors : DiGraph → String → List String
  pub descendants : DiGraph → String → List String
  pub ancestors-descendants :
      (g : DiGraph) (x y : String) → contains x (ancestors g y) ≡ contains y (descendants g x)
  pub has_node-add_node :
      (g : DiGraph) (a x : String) → has_node (add_node a g) x ≡ (str_eq a x || has_node g x)
  pub ancestors_has_node :
      (g : DiGraph) (x y : String) → contains x (ancestors g y) ≡ true → has_node g x ≡ true
  pub descendants_has_node :
      (g : DiGraph) (x y : String) → contains x (descendants g y) ≡ true → has_node g x ≡ true

module _ (nx : Networkx) where
  pub record Topology : Type 0 where
    pub g : nx.DiGraph

  unfoldable pub add_agent : Topology → String → Option String → Topology
  add_agent t a none = record { g = nx.add_node a t.g }
  add_agent t a (some parent) = record {
    g = nx.add_edge parent a (nx.add_node parent (nx.add_node a t.g));
  }

  abbrev first : List String → Option String
  first [] = none
  first (p ∷ ps) = some p

  unfoldable pub parent : Topology → String → Option String
  parent t a = first (if nx.has_node t.g a then nx.predecessors t.g a else [])

  unfoldable pub children : Topology → String → List String
  children t a = if nx.has_node t.g a then nx.successors t.g a else []

  unfoldable pub ancestors : Topology → String → List String
  ancestors t a = if nx.has_node t.g a then nx.ancestors t.g a else []

  unfoldable pub descendants : Topology → String → List String
  descendants t a = if nx.has_node t.g a then nx.descendants t.g a else []

  unfoldable pub is_ancestor_of : Topology → String → String → Bool
  unfolding ancestors contains
  is_ancestor_of t x y = contains x (ancestors t y)

  unfoldable pub is_descendant_of : Topology → String → String → Bool
  unfolding descendants contains
  is_descendant_of t x y = contains x (descendants t y)

  -- `s - {a}`
  unfoldable pub without : String → List String → List String
  without a [] = []
  without a (x ∷ xs) = let rest = without a xs in if str_eq x a then rest else x ∷ rest

  abbrev siblings_under : Topology → String → Option String → List String
  siblings_under t a none = []
  siblings_under t a (some p) = if str_eq p "" then [] else without a (children t p)

  unfoldable pub siblings : Topology → String → List String
  unfolding children without parent
  siblings t a = siblings_under t a (parent t a)

  -- The two queries are each other's converse, whichever of the two agents is in the graph.
  pub is_ancestor_of-is_descendant_of :
      (t : Topology) (x y : String) → is_ancestor_of t x y ≡ is_descendant_of t y x
  unfolding is_ancestor_of is_descendant_of
  is_ancestor_of-is_descendant_of t x y = ground (
    arith,
    nx.ancestors-descendants t.g x y,
    nx.ancestors_has_node t.g x y,
    nx.descendants_has_node t.g y x,
  )
