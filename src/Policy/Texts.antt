-- ===== src/Policy/Texts.antt =====
-- core/policy.py: the words of the text of a policy are those of its formula.
use Prim.Native.Char.{Char}
use Prim.Native.String.{◌++◌ as append}
use mathlib.Core.Path.{subst, fun_ext}
use trustmem.Prelude.{
  ℕ, ◌-◌, String, Bool, true, List, [], ◌∷◌, ◌++◌, map, ◌≡◌, refl, all, nonempty, and_left,
  and_right, and_intro,
}
use trustmem.Prelude.Prefix.{prepend, append-prepend}
use trustmem.Prelude.Sorting.{sorted, all-sorted, nonempty-sorted}
use trustmem.Labels.{
  Clearance, l0_public, l1_internal, l2_sensitive, l3_secret, MemoryLabel, Layer, directive,
  conclusion, reasoning, auditor,
}
use trustmem.Labels.Lattice.{clearance_level}
use trustmem.Abe.Tokens.{flush, sort_of, tokenize}
use trustmem.Abe.Spelling.{
  all_wordly, all_wordly-append, Spells, Spells-word, Spells-group, Spells-and, Spells-or,
  Spells-tokens,
}
use trustmem.Abe.Formula.{
  Atom, word, group, branch, put_atom, put_and, put_or, valid_atom, valid_and, valid_or,
}
use trustmem.Policy.Words.{
  Tag, is_agent, has_role, has_clearance, at_epoch, on_task, in_group, ancestor_of, descendant_of,
  prefix, attribute, attribute-not_opening,
}
use trustmem.Policy.Digits.{decimal}
use trustmem.Policy.Decimals.{all_wordly-decimal}
use trustmem.Policy.Clauses.{
  role_value, join, parenthesised, range, group_clauses, readers, layer_clauses, policy_clauses,
  policy_from_label,
}
use trustmem.Policy.Formulas.{
  all_list, any_list, words, group_atoms, reader_atoms, layer_atoms, numbers, policy_atoms,
}

nonempty-map :
    (t : Tag) (xs : List String) → nonempty xs ≡ true → nonempty (map (attribute t) xs) ≡ true
nonempty-map t [] h = h
nonempty-map t (x ∷ xs) h = refl

nonempty-append : (xs ys : List String) → nonempty ys ≡ true → nonempty (xs ++ ys) ≡ true
nonempty-append [] ys h = h
nonempty-append (x ∷ xs) ys h = refl

clearances_nonempty :
    (c : Clearance)
    → nonempty (
        map
          (λ n. attribute has_clearance (decimal n))
          (range (clearance_level c) (4 - clearance_level c)))
      ≡ true
unfolding clearance_level range
clearances_nonempty l0_public = refl
clearances_nonempty l1_internal = refl
clearances_nonempty l2_sensitive = refl
clearances_nonempty l3_secret = refl

clauses_nonempty : (mem : MemoryLabel) → nonempty (policy_clauses mem) ≡ true
unfolding policy_clauses
clauses_nonempty mem = refl

module _ (is_alphanumeric : Char → Bool) where
  abbrev is_name : String → Bool
  is_name s = all_wordly is_alphanumeric s

  prefix-flush : (t : Tag) (x : String) → flush (append (prefix t) x) ≡ append (prefix t) x ∷ []
  unfolding flush prepend
  prefix-flush is_agent x = rw (append-prepend (prefix is_agent) x) refl
  prefix-flush has_role x = rw (append-prepend (prefix has_role) x) refl
  prefix-flush has_clearance x = rw (append-prepend (prefix has_clearance) x) refl
  prefix-flush at_epoch x = rw (append-prepend (prefix at_epoch) x) refl
  prefix-flush on_task x = rw (append-prepend (prefix on_task) x) refl
  prefix-flush in_group x = rw (append-prepend (prefix in_group) x) refl
  prefix-flush ancestor_of x = rw (append-prepend (prefix ancestor_of) x) refl
  prefix-flush descendant_of x = rw (append-prepend (prefix descendant_of) x) refl

  prefix-is_name : (t : Tag) → is_name (prefix t) ≡ true
  unfolding all_wordly sort_of
  prefix-is_name is_agent = refl
  prefix-is_name has_role = refl
  prefix-is_name has_clearance = refl
  prefix-is_name at_epoch = refl
  prefix-is_name on_task = refl
  prefix-is_name in_group = refl
  prefix-is_name ancestor_of = refl
  prefix-is_name descendant_of = refl

  -- Texts that are spelled by the words of atoms, one by one.
  data Spelled : List String → List Atom → Type 0 where
    nothing : Spelled [] []
    more :
        {s : String} {a : Atom} {ss : List String} {atoms : List Atom}
        → Spells is_alphanumeric s (put_atom a)
        → valid_atom a ≡ true
        → Spelled ss atoms
        → Spelled (s ∷ ss) (a ∷ atoms)

  Spelled-append :
      {ss ts : List String} {atoms others : List Atom}
      → Spelled ss atoms
      → Spelled ts others
      → Spelled (ss ++ ts) (atoms ++ others)
  Spelled-append nothing h = h
  Spelled-append (more s v rest) h = more s v (Spelled-append rest h)

  Spelled-attribute :
      (t : Tag) (x : String) {ss : List String} {atoms : List Atom}
      → is_name x ≡ true
      → Spelled ss atoms
      → Spelled (attribute t x ∷ ss) (word (attribute t x) ∷ atoms)
  unfolding attribute put_or valid_or
  Spelled-attribute t x h rest =
      let named : is_name (append (prefix t) x) ≡ true =
        rw (all_wordly-append is_alphanumeric (prefix t) x, prefix-is_name t) h in
      more
        (subst (Spells is_alphanumeric (append (prefix t) x)) (fun_ext λ rest. refl)
          (Spells-word is_alphanumeric (append (prefix t) x) named (prefix-flush t x)))
        (attribute-not_opening t x) rest

  Spelled-words :
      (t : Tag) (xs : List String)
      → all is_name xs ≡ true
      → Spelled (map (attribute t) xs) (words t xs)
  Spelled-words t [] h = nothing
  Spelled-words t (x ∷ xs) h =
      Spelled-attribute t x (and_left (is_name x) (all is_name xs) h)
        (Spelled-words t xs (and_right (is_name x) (all is_name xs) h))

  Spelled-numbers :
      (t : Tag) (ns : List ℕ) → Spelled (map (λ n. attribute t (decimal n)) ns) (numbers t ns)
  Spelled-numbers t [] = nothing
  Spelled-numbers t (n ∷ ns) =
      Spelled-attribute t (decimal n) (all_wordly-decimal is_alphanumeric n) (Spelled-numbers t ns)

  Spells-any :
      {ss : List String} {atoms : List Atom}
      → Spelled ss atoms
      → nonempty ss ≡ true
      → Spells is_alphanumeric (join " or " ss) (put_or (any_list atoms))
        × (valid_or (any_list atoms) ≡ true)
  unfolding join any_list put_or valid_or
  Spells-any nothing h = absurd (cc h)
  Spells-any (more s v nothing) h = (s, v)
  Spells-any (more s v (more {s = s'} t w rest)) h =
      let others = Spells-any (more t w rest) refl in
      (Spells-or is_alphanumeric s (others.0), and_intro _ _ v (others.1))

  Spells-all :
      {ss : List String} {atoms : List Atom}
      → Spelled ss atoms
      → nonempty ss ≡ true
      → Spells is_alphanumeric (join " and " ss) (put_and (all_list atoms))
        × (valid_and (all_list atoms) ≡ true)
  unfolding join all_list put_or valid_or
  Spells-all nothing h = absurd (cc h)
  Spells-all (more s v nothing) h = (s, v)
  Spells-all (more s v (more t w rest)) h =
      let others = Spells-all (more t w rest) refl in
      (Spells-and is_alphanumeric s (others.0), and_intro _ _ v (others.1))

  Spelled-group :
      {ss ts : List String} {atoms others : List Atom}
      → Spelled ss atoms
      → nonempty ss ≡ true
      → Spelled ts others
      → Spelled (parenthesised ss ∷ ts) (group (any_list atoms) ∷ others)
  unfolding parenthesised put_or valid_or
  Spelled-group h n rest =
      let inner = Spells-any h n in more (Spells-group is_alphanumeric (inner.0)) (inner.1) rest

  module _ (groups : List String) (named : all is_name groups ≡ true) where
    sorted_named : all is_name (sorted groups) ≡ true
    sorted_named = rw (all-sorted is_name groups) named

  Spelled-groups :
      (groups : List String)
      → all is_name groups ≡ true
      → Spelled (group_clauses groups) (group_atoms groups)
  unfolding group_clauses group_atoms
  Spelled-groups [] h = nothing
  Spelled-groups (g ∷ groups) h =
      Spelled-group (Spelled-words in_group (sorted (g ∷ groups)) (sorted_named (g ∷ groups) h))
        (nonempty-map in_group (sorted (g ∷ groups)) (nonempty-sorted (g ∷ groups))) nothing

  Spelled-readers :
      (t : Tag) (owner : String)
      → is_name owner ≡ true
      → Spelled (readers t owner) (reader_atoms t owner)
  unfolding all_wordly sort_of
  Spelled-readers t owner h =
      Spelled-attribute is_agent owner h
        (Spelled-attribute t owner h (Spelled-attribute has_role (role_value auditor) refl nothing))

  Spelled-layer :
      (layer : Layer) (owner : String) (groups : List String)
      → is_name owner ≡ true
      → all is_name groups ≡ true
      → Spelled (layer_clauses layer owner groups) (layer_atoms layer owner groups)
  unfolding layer_clauses layer_atoms
  Spelled-layer reasoning owner groups h k =
      Spelled-append (Spelled-groups groups k)
        (Spelled-group (Spelled-readers ancestor_of owner h) refl nothing)
  Spelled-layer directive owner groups h k =
      Spelled-append (Spelled-groups groups k)
        (Spelled-group (Spelled-readers descendant_of owner h) refl nothing)
  Spelled-layer conclusion owner groups h k =
      Spelled-group (Spelled-append (Spelled-groups groups k) (Spelled-readers ancestor_of owner h))
        (nonempty-append (group_clauses groups) (readers ancestor_of owner) refl) nothing

  -- The names that a memory's policy is made of are words.
  pub record IsNamed (mem : MemoryLabel) : Type 0 where
    pub owner : is_name mem.owner_agent ≡ true
    pub task : is_name mem.task_binding ≡ true
    pub groups : all is_name mem.collab_group ≡ true

  policy-Spelled :
      (mem : MemoryLabel) → IsNamed mem → Spelled (policy_clauses mem) (policy_atoms mem)
  unfolding policy_clauses policy_atoms
  policy-Spelled mem named =
      let level = clearance_level mem.sensitivity in
      Spelled-group (Spelled-numbers has_clearance (range level (4 - level)))
        (clearances_nonempty mem.sensitivity)
        (Spelled-attribute on_task mem.task_binding named.task (
          Spelled-append
            (Spelled-layer mem.layer mem.owner_agent mem.collab_group named.owner named.groups)
            (Spelled-attribute at_epoch (decimal mem.epoch)
              (all_wordly-decimal is_alphanumeric mem.epoch) nothing)))

  -- The text of a memory's policy has the words of its formula, none an opening parenthesis.
  pub policy_tokens :
      (mem : MemoryLabel)
      → IsNamed mem
      → (tokenize is_alphanumeric (policy_from_label mem)
          ≡ put_or (branch (all_list (policy_atoms mem))) [])
        × (valid_or (branch (all_list (policy_atoms mem))) ≡ true)
  unfolding policy_from_label put_or valid_or
  policy_tokens mem named =
      let text = Spells-all (policy-Spelled mem named) (clauses_nonempty mem) in
      (Spells-tokens is_alphanumeric (text.0), text.1)
