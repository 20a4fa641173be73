-- ===== src/Policy/Words.antt =====
-- core/policy.py: the names of the attributes, a prefix with a value behind it.
use Prim.Native.String.{String, ◌++◌ as append}
use trustmem.Prelude.{
  ℕ, Bool, true, false, ◌&&◌, ◌||◌, not, List, [], ◌∷◌, ◌≡◌, refl, map, all, contains, str_eq,
  Bool-cases, inl, inr, arith, ◌==◌,
}
use trustmem.Prelude.Prefix.{differ_early, differ_early-str_eq, append-str_eq}

-- The kinds of attributes.
pub data Tag : Type 0 where
  is_agent has_role has_clearance at_epoch on_task in_group ancestor_of descendant_of : Tag

abbrev pub prefix : Tag → String
prefix is_agent = "agent_"
prefix has_role = "role_"
prefix has_clearance = "clearance_"
prefix at_epoch = "epoch_"
prefix on_task = "task_"
prefix in_group = "group_"
prefix ancestor_of = "ancestorof_"
prefix descendant_of = "descendantof_"

unfoldable pub attribute : Tag → String → String
attribute tag value = append (prefix tag) value

abbrev place : Tag → ℕ
place is_agent = 0
place has_role = 1
place has_clearance = 2
place at_epoch = 3
place on_task = 4
place in_group = 5
place ancestor_of = 6
place descendant_of = 7

abbrev pub same_tag : Tag → Tag → Bool
same_tag t u = place t == place u

abbrev tags : List Tag
tags =
    is_agent ∷ has_role ∷ has_clearance ∷ at_epoch ∷ on_task ∷ in_group ∷ ancestor_of
    ∷ descendant_of ∷ []

for_tag : (p : Tag → Bool) → all p tags ≡ true → (t : Tag) → p t ≡ true
for_tag p h is_agent = ground arith
for_tag p h has_role = ground arith
for_tag p h has_clearance = ground arith
for_tag p h at_epoch = ground arith
for_tag p h on_task = ground arith
for_tag p h in_group = ground arith
for_tag p h ancestor_of = ground arith
for_tag p h descendant_of = ground arith

-- No prefix begins another.
abbrev apart : Tag → Tag → Bool
apart t u = same_tag t u || differ_early (prefix t) (prefix u)

tags_apart : (t u : Tag) → apart t u ≡ true
tags_apart t u = for_tag (apart t) (for_tag (λ s. all (apart s) tags) refl t) u

same_tag-eq : (t u : Tag) → same_tag t u ≡ true → t ≡ u
same_tag-eq t u h = ground arith

second : (a b : Bool) → a ≡ false → (a || b) ≡ true → b ≡ true
second a b h k = ground arith

same_tag_refl : (t : Tag) → same_tag t t ≡ true
same_tag_refl t = ground arith

-- Attributes are equal when their kinds and their values are.
pub str_eq-attribute :
    (t u : Tag) (x y : String)
    → str_eq (attribute t x) (attribute u y) ≡ (same_tag t u && str_eq x y)
unfolding attribute
str_eq-attribute t u x y = elim (Bool-cases (same_tag t u)) [
  | inl e ↦ rw (same_tag-eq t u e, same_tag_refl u) (append-str_eq (prefix u) x y)
  | inr e ↦
      rw
        (
          e,
          differ_early-str_eq (prefix t) (prefix u) x y
              (second (same_tag t u) (differ_early (prefix t) (prefix u)) e (tags_apart t u)),
        )
        refl
]

-- An attribute among those of one kind.
pub contains-attribute :
    (t u : Tag) (x : String) (values : List String)
    → contains (attribute t x) (map (attribute u) values) ≡ (same_tag t u && contains x values)
unfolding contains
contains-attribute t u x [] = ground arith
contains-attribute t u x (y ∷ values) =
    ground (arith, contains-attribute t u x values, str_eq-attribute u t y x)

-- An attribute is no opening parenthesis.
pub attribute-not_opening : (t : Tag) (x : String) → not (str_eq (attribute t x) "(") ≡ true
unfolding attribute
attribute-not_opening t x =
    let differs = for_tag (λ u. differ_early (prefix u) "(") refl t in
    rw (differ_early-str_eq (prefix t) "(" x "" differs) refl
