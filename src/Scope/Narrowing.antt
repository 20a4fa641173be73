-- ===== src/Scope/Narrowing.antt =====
-- Scopes only get tighter: `narrow`, `widen` and `is_subscope_of`.
use trustmem.Prelude.{◌≡◌, ◌≤◌, ◌↔◌, String, true, arith}
use trustmem.Result.{ok, raise, permission_error}
use trustmem.Labels.{Clearance, Trust}
use trustmem.Labels.Lattice.{clearance_level, trust_level}
use trustmem.Scope.{
  ScopePayload, TaskScope, payload, post_init, narrow, is_subscope_of, scope_contains,
}

-- The order of scopes, written out.
abbrev pub Within : TaskScope → TaskScope → Type 0
Within s u =
    (clearance_level s.c_ctx_max ≤ clearance_level u.c_ctx_max)
    × (trust_level u.t_ctx_min ≤ trust_level s.t_ctx_min)

pub is_subscope_of_iff : (s u : TaskScope) → (is_subscope_of s u ≡ true) ↔ Within s u
unfolding is_subscope_of
is_subscope_of_iff s u = ground arith

-- Whatever label a scope within another admits, the other admits.
pub is_subscope_of-scope_contains :
    (s u : TaskScope) (c : Clearance) (t : Trust)
    → is_subscope_of s u ≡ true
    → scope_contains s c t ≡ true
    → scope_contains u c t ≡ true
unfolding is_subscope_of scope_contains
is_subscope_of-scope_contains s u c t h k = ground arith

module _ (digest : ScopePayload → String) where
  -- The scope that `narrow` returns: its digest is taken after the link to the parent is set.
  abbrev pub narrowed : TaskScope → Clearance → Trust → TaskScope
  narrowed s c t =
      post_init digest
        (record s { c_ctx_max = c; t_ctx_min = t; parent_hash = s.scope_hash; scope_hash = "" })

  module _ (s : TaskScope) (c : Clearance) (t : Trust) where
    abbrev Tighter : Type 0
    Tighter =
        (clearance_level c ≤ clearance_level s.c_ctx_max)
        × (trust_level s.t_ctx_min ≤ trust_level t)

    -- `narrow` returns the narrowed scope exactly when neither bound is loosened, and raises
    -- `PermissionError` exactly when one is.
    pub narrow-ok_iff :
        ((narrow digest s c t ≡ ok (narrowed s c t)) ↔ Tighter)
        × ((narrow digest s c t ≡ raise permission_error) ↔ (¬ Tighter))
    unfolding narrow
    narrow-ok_iff = ground arith

  -- Every scope that `narrow` returns lies within the one it was called on, keeps its task, its
  -- ingest mode and its consult threshold, names its hash as the parent's, and carries the digest
  -- of its own fields.
  pub narrow-Within :
      (s : TaskScope) (c : Clearance) (t : Trust) {u : TaskScope}
      → narrow digest s c t ≡ ok u
      → Within u s
        × (u.task_id ≡ s.task_id)
        × (u.ingest ≡ s.ingest)
        × (u.consult_below ≡ s.consult_below)
        × (u.parent_hash ≡ s.scope_hash)
        × (u.scope_hash ≡ digest (payload u))
  unfolding narrow
  narrow-Within s c t h = ground arith
