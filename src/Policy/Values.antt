-- ===== src/Policy/Values.antt =====
-- core/policy.py: the truth value of a memory's policy for the attributes of an agent.
use Prim.Native.Char.{Char}
use text.Mathlib.TextEquality.{eq_iff}
use trustmem.Prelude.{
  ℕ, ◌-◌, String, Bool, true, false, ◌&&◌, ◌||◌, not, List, [], ◌∷◌, ◌++◌, map, ◌≡◌, refl, all, any,
  nonempty, str_eq, contains, contains-append, intersects, intersects-any, Bool-cases, inl, inr,
  all-append, any-append, ◌==◌, arith,
}
use trustmem.Prelude.Sorting.{sorted, any-sorted, contains-sorted, nonempty-sorted}
use trustmem.Labels.{
  AgentLabel, MemoryLabel, Layer, directive, conclusion, reasoning, Role, planner, retriever,
  analyst, executor, auditor, external, Clearance, l0_public, l1_internal, l2_sensitive, l3_secret,
}
use trustmem.Labels.Lattice.{clearance_level, clearance_leb}
use trustmem.Topology.{
  Networkx, Topology, ancestors, descendants, is_ancestor_of, is_descendant_of,
  is_ancestor_of-is_descendant_of,
}
use trustmem.Pdp.Hard.{is_auditor, layer_readable, layer_rule}
use trustmem.Abe.Tokens.{tokenize}
use trustmem.Abe.Formula.{Atom, word, group, branch, put_or, value_atom, value_and, value_or}
use trustmem.Policy.Words.{
  Tag, is_agent, has_role, has_clearance, at_epoch, on_task, in_group, ancestor_of, descendant_of,
  attribute, same_tag, str_eq-attribute, contains-attribute,
}
use trustmem.Policy.Digits.{decimal}
use trustmem.Policy.Decimals.{str_eq-decimal}
use trustmem.Policy.Clauses.{role_value, range, policy_from_label}
use trustmem.Policy.Formulas.{
  all_list, any_list, words, group_atoms, reader_atoms, layer_atoms, numbers, policy_atoms,
}
use trustmem.Policy.Texts.{IsNamed, policy_tokens}
use trustmem.Policy.Attributes.{agent_attributes}

module _ (attributes : List String) where
  value_all :
      (a : Atom) (atoms : List Atom)
      → value_and attributes (all_list (a ∷ atoms)) ≡ all (value_atom attributes) (a ∷ atoms)
  unfolding value_or all_list
  value_all a [] = ground arith
  value_all a (b ∷ atoms) = ground (arith, value_all b atoms)

  value_any :
      (atoms : List Atom)
      → nonempty atoms ≡ true
      → value_or attributes (any_list atoms) ≡ any (value_atom attributes) atoms
  unfolding value_or any_list
  value_any [] h = absurd (cc h)
  value_any (a ∷ []) h = ground arith
  value_any (a ∷ b ∷ atoms) h = ground (arith, value_any (b ∷ atoms) refl)

nonempty-words : (t : Tag) (xs : List String) → nonempty xs ≡ true → nonempty (words t xs) ≡ true
nonempty-words t [] h = h
nonempty-words t (x ∷ xs) h = refl

role_is_auditor : (r : Role) → str_eq (role_value r) (role_value auditor) ≡ is_auditor r
role_is_auditor planner = refl
role_is_auditor retriever = refl
role_is_auditor analyst = refl
role_is_auditor executor = refl
role_is_auditor auditor = refl
role_is_auditor external = refl

clearances_value :
    (low c : Clearance)
    → any (λ n. clearance_level c == n) (range (clearance_level low) (4 - clearance_level low))
      ≡ clearance_leb low c
unfolding clearance_level range
clearances_value l0_public c = ground arith
clearances_value l1_internal c = ground arith
clearances_value l2_sensitive c = ground arith
clearances_value l3_secret c = ground arith

nonempty-behind : (xs ys : List Atom) → nonempty ys ≡ true → nonempty (xs ++ ys) ≡ true
nonempty-behind [] ys h = h
nonempty-behind (x ∷ xs) ys h = refl

levels_nonempty :
    (c : Clearance)
    → nonempty (numbers has_clearance (range (clearance_level c) (4 - clearance_level c))) ≡ true
unfolding clearance_level range
levels_nonempty l0_public = refl
levels_nonempty l1_internal = refl
levels_nonempty l2_sensitive = refl
levels_nonempty l3_secret = refl

empty_tokens :
    (is_alphanumeric : Char → Bool) (s : String) → s ≡ "" → tokenize is_alphanumeric s ≡ []
unfolding tokenize
empty_tokens is_alphanumeric s e = rw e refl

pub not_empty :
    (is_alphanumeric : Char → Bool) (mem : MemoryLabel)
    → IsNamed is_alphanumeric mem
    → str_eq (policy_from_label mem) "" ≡ false
unfolding policy_atoms put_or all_list
not_empty is_alphanumeric mem named =
    let text = policy_tokens is_alphanumeric mem named in
    elim (Bool-cases (str_eq (policy_from_label mem) "")) [
      | inl b ↦
          let empty = empty_tokens is_alphanumeric _ ((eq_iff (policy_from_label mem) "").0 b) in
          absurd (cc (text.0, empty))
      | inr b ↦ b
    ]

module _ (nx : Networkx) (agent : AgentLabel) (topo : Topology nx) where
  abbrev pub issued : List String
  issued = agent_attributes nx agent topo

  issued_lem :
      (t : Tag) (x : String)
      → contains (attribute t x) issued ≡ (
          (same_tag is_agent t && str_eq agent.agent_id x)
          || ((same_tag has_role t && str_eq (role_value agent.role) x)
              || ((same_tag has_clearance t && str_eq (decimal (clearance_level agent.clearance)) x)
                  || ((same_tag at_epoch t && str_eq (decimal agent.epoch) x)
                      || ((same_tag t on_task && contains x agent.task_domain)
                          || ((same_tag t in_group && contains x agent.collab_group)
                              || ((same_tag t ancestor_of
                                    && contains x (descendants nx topo agent.agent_id))
                                  || (same_tag t descendant_of
                                      && contains x (ancestors nx topo agent.agent_id)))))))))
  unfolding agent_attributes contains
  issued_lem t x =
      let domain = map (attribute on_task) (sorted agent.task_domain) in
      let groups = map (attribute in_group) (sorted agent.collab_group) in
      let below = map (attribute ancestor_of) (sorted (descendants nx topo agent.agent_id)) in
      let above = map (attribute descendant_of) (sorted (ancestors nx topo agent.agent_id)) in
      rw
        (
          str_eq-attribute is_agent t agent.agent_id x,
          str_eq-attribute has_role t (role_value agent.role) x,
          str_eq-attribute has_clearance t (decimal (clearance_level agent.clearance)) x,
          str_eq-attribute at_epoch t (decimal agent.epoch) x,
          contains-append (attribute t x) domain (groups ++ (below ++ above)),
          contains-append (attribute t x) groups (below ++ above),
          contains-append (attribute t x) below above,
          contains-attribute t on_task x (sorted agent.task_domain),
          contains-attribute t in_group x (sorted agent.collab_group),
          contains-attribute t ancestor_of x (sorted (descendants nx topo agent.agent_id)),
          contains-attribute t descendant_of x (sorted (ancestors nx topo agent.agent_id)),
          contains-sorted x agent.task_domain,
          contains-sorted x agent.collab_group,
          contains-sorted x (descendants nx topo agent.agent_id),
          contains-sorted x (ancestors nx topo agent.agent_id),
        )
        refl

  held_clearance :
      (n : ℕ)
      → contains (attribute has_clearance (decimal n)) issued
        ≡ (clearance_level agent.clearance == n)
  held_clearance n = ground (
    arith,
    issued_lem has_clearance (decimal n),
    str_eq-decimal (clearance_level agent.clearance) n,
  )

  held_epoch : (n : ℕ) → contains (attribute at_epoch (decimal n)) issued ≡ (agent.epoch == n)
  held_epoch n = ground (arith, issued_lem at_epoch (decimal n), str_eq-decimal agent.epoch n)

  held_task : (x : String) → contains (attribute on_task x) issued ≡ contains x agent.task_domain
  held_task x = ground (arith, issued_lem on_task x)

  held_group : (x : String) → contains (attribute in_group x) issued ≡ contains x agent.collab_group
  held_group x = ground (arith, issued_lem in_group x)

  held_agent : (x : String) → contains (attribute is_agent x) issued ≡ str_eq agent.agent_id x
  held_agent x = ground (arith, issued_lem is_agent x)

  held_auditor : contains (attribute has_role (role_value auditor)) issued ≡ is_auditor agent.role
  held_auditor =
      ground (arith, issued_lem has_role (role_value auditor), role_is_auditor agent.role)

  held_ancestor :
      (x : String)
      → contains (attribute ancestor_of x) issued ≡ is_ancestor_of nx topo agent.agent_id x
  unfolding is_descendant_of
  held_ancestor x =
      ground
        (arith, issued_lem ancestor_of x, is_ancestor_of-is_descendant_of nx topo agent.agent_id x)

  held_descendant :
      (x : String)
      → contains (attribute descendant_of x) issued ≡ is_descendant_of nx topo agent.agent_id x
  unfolding is_ancestor_of
  held_descendant x =
      ground (
        arith,
        issued_lem descendant_of x,
        is_ancestor_of-is_descendant_of nx topo x agent.agent_id,
      )

  any-numbers :
      (ns : List ℕ)
      → any (value_atom issued) (numbers has_clearance ns)
        ≡ any (λ n. clearance_level agent.clearance == n) ns
  unfolding value_or
  any-numbers [] = refl
  any-numbers (n ∷ ns) = ground (arith, any-numbers ns, held_clearance n)

  any-words :
      (xs : List String)
      → any (value_atom issued) (words in_group xs) ≡ any (λ x. contains x agent.collab_group) xs
  unfolding value_or
  any-words [] = refl
  any-words (x ∷ xs) = ground (arith, any-words xs, held_group x)

  group_value :
      (g : String) (groups : List String)
      → value_or issued (any_list (words in_group (sorted (g ∷ groups))))
        ≡ intersects agent.collab_group (g ∷ groups)
  group_value g groups =
      let listed = sorted (g ∷ groups) in
      rw
        (
          value_any issued (words in_group listed)
              (nonempty-words in_group listed (nonempty-sorted (g ∷ groups))),
          any-words listed,
          any-sorted (λ x. contains x agent.collab_group) (g ∷ groups),
        )
        (intersects-any agent.collab_group (g ∷ groups))

  -- Alone, the groups are a condition only if there are any.
  all-group_atoms :
      (groups : List String)
      → all (value_atom issued) (group_atoms groups)
        ≡ (not (nonempty groups) || intersects agent.collab_group groups)
  unfolding group_atoms value_or
  all-group_atoms [] = refl
  all-group_atoms (g ∷ groups) = ground (arith, group_value g groups)

  any-group_atoms :
      (groups : List String)
      → any (value_atom issued) (group_atoms groups) ≡ intersects agent.collab_group groups
  unfolding group_atoms value_or
  any-group_atoms [] = intersects-any agent.collab_group []
  any-group_atoms (g ∷ groups) = ground (arith, group_value g groups)

  any_readers :
      (t : Tag) (owner : String)
      → any (value_atom issued) (reader_atoms t owner) ≡ (
          str_eq agent.agent_id owner
          || (contains (attribute t owner) issued || is_auditor agent.role))
  unfolding value_or
  any_readers t owner = ground (arith, held_agent owner, held_auditor)

  -- Outside the conclusions, an agent shares a group with the memory, if that has any.
  abbrev pub shares_group : MemoryLabel → Bool
  shares_group mem =
      not (nonempty mem.collab_group) || intersects agent.collab_group mem.collab_group

  abbrev pub grouped : Layer → MemoryLabel → Bool
  grouped conclusion mem = true
  grouped layer mem = shares_group mem

  readers_value :
      (t : Tag) (owner : String)
      → value_or issued (any_list (reader_atoms t owner))
        ≡ any (value_atom issued) (reader_atoms t owner)
  readers_value t owner = value_any issued (reader_atoms t owner) refl

  layer_value :
      (layer : Layer) (mem : MemoryLabel)
      → all (value_atom issued) (layer_atoms layer mem.owner_agent mem.collab_group) ≡ (
          grouped layer mem
          && (str_eq agent.agent_id mem.owner_agent
              || is_auditor agent.role
              || layer_rule nx topo layer agent mem))
  unfolding layer_rule layer_atoms value_or
  layer_value reasoning mem = ground (
    arith,
    all-append (value_atom issued) (group_atoms mem.collab_group)
        (group (any_list (reader_atoms ancestor_of mem.owner_agent)) ∷ []),
    all-group_atoms mem.collab_group,
    readers_value ancestor_of mem.owner_agent,
    any_readers ancestor_of mem.owner_agent,
    held_ancestor mem.owner_agent,
  )
  layer_value directive mem = ground (
    arith,
    all-append (value_atom issued) (group_atoms mem.collab_group)
        (group (any_list (reader_atoms descendant_of mem.owner_agent)) ∷ []),
    all-group_atoms mem.collab_group,
    readers_value descendant_of mem.owner_agent,
    any_readers descendant_of mem.owner_agent,
    held_descendant mem.owner_agent,
  )
  layer_value conclusion mem =
      let readers = reader_atoms ancestor_of mem.owner_agent in
      ground (
        arith,
        value_any issued (group_atoms mem.collab_group ++ readers)
            (nonempty-behind (group_atoms mem.collab_group) readers refl),
        any-append (value_atom issued) (group_atoms mem.collab_group) readers,
        any-group_atoms mem.collab_group,
        any_readers ancestor_of mem.owner_agent,
        held_ancestor mem.owner_agent,
      )

  pub policy_value :
      (mem : MemoryLabel)
      → value_or issued (branch (all_list (policy_atoms mem))) ≡ (
          clearance_leb mem.sensitivity agent.clearance
          && (contains mem.task_binding agent.task_domain
              && (grouped mem.layer mem
                  && (layer_readable nx topo agent mem && agent.epoch == mem.epoch))))
  unfolding policy_atoms value_or layer_readable
  policy_value mem =
      let level = clearance_level mem.sensitivity in
      let levels = numbers has_clearance (range level (4 - level)) in
      let first = group (any_list levels) in
      let epoch = word (attribute at_epoch (decimal mem.epoch)) ∷ [] in
      let layer = layer_atoms mem.layer mem.owner_agent mem.collab_group in
      ground (
        arith,
        value_all issued first (word (attribute on_task mem.task_binding) ∷ (layer ++ epoch)),
        value_any issued levels (levels_nonempty mem.sensitivity),
        any-numbers (range level (4 - level)),
        clearances_value mem.sensitivity agent.clearance,
        held_task mem.task_binding,
        all-append (value_atom issued) layer epoch,
        layer_value mem.layer mem,
        held_epoch mem.epoch,
      )
