-- ===== src/Vars.antt =====
-- core/varstore.py: the handles of hidden memories, the capacity of a constrained answer, and the
-- expansion of a handle. Numbers are natural, so a range has whole bounds and a whole step; the
-- rounded-up logarithm is the least number of bits. The metadata of a handle, shown only, is left
-- out.
pub mod Capacity
pub mod Expansion
use trustmem.Prelude.{
  ℕ, zero, suc, ◌+◌, ◌-◌, ◌/◌, ◌^◌, max, String, Bool, true, false, ◌&&◌, Option, none, some, List,
  [], ◌∷◌, ltb, leb, ◌==◌, if◌then◌else◌, str_eq, lookup, insert, length, map,
}
use mathlib.Core.Option.{get_or}
use trustmem.Result.{Result, ok, raise, key_error, value_error, zero_division, ◌>>=◌}
use trustmem.Labels.{Trust, Clearance}
use trustmem.Session.{
  Session, AbsorbMode, full, bounded, absorb, consume_bits, capacity_budget_bits,
}
use trustmem.Verdict.{Denial}

pub data ConstraintType : Type 0 where
  bool enum number : ConstraintType

-- A constrained type with the arguments that its capacity depends on.
pub data VType : Type 0 where
  bool : VType
  enum : List String → VType
  number : ℕ → ℕ → ℕ → VType
  short_string string : VType
  other : String → VType

pub data Bits : Type 0 where
  bits : ℕ → Bits
  unbounded : Bits

-- `math.ceil(math.log2(n))`: the first exponent that reaches `n`, looked for from `k` on.
unfoldable pub log2_from : ℕ → ℕ → ℕ → ℕ
log2_from zero k n = k
log2_from (suc fuel) k n = elim (leb n (2 ^ k)) [ true ↦ k | false ↦ log2_from fuel (suc k) n ]

unfoldable pub ceil_log2 : ℕ → ℕ
unfolding log2_from
ceil_log2 n = log2_from n 0 n

unfoldable pub bits_for : ℕ → ℕ
unfolding ceil_log2
bits_for n = if ltb 1 n then ceil_log2 n else 1

unfoldable pub capacity_of : VType → Result Bits
unfolding bits_for
capacity_of VType.bool = ok (bits 1)
capacity_of (VType.enum options) = ok (bits (bits_for (max 1 (length options))))
capacity_of (VType.number lo hi zero) = raise zero_division
capacity_of (VType.number lo hi (suc step)) =
    ok (bits (bits_for (max 1 ((hi - lo) / suc step + 1))))
capacity_of short_string = ok (bits 32)
capacity_of string = ok unbounded
capacity_of (other name) = raise value_error

pub record VarHandle : Type 0 where
  pub var_id : String
  pub chunk_id : String
  pub reason : Denial
  pub constraint_types : List ConstraintType
  pub source_trust : Trust
  pub sensitivity : Clearance

pub record VarStore : Type 0 where
  pub by_var : List (String × VarHandle)
  pub by_chunk : List (String × VarHandle)

abbrev pub no_vars : VarStore
no_vars = record { by_var = []; by_chunk = [] }

unfoldable pub store : VarStore → VarHandle → VarStore
store vs h = record {
  by_var = insert h.var_id h vs.by_var;
  by_chunk = insert h.chunk_id h vs.by_chunk;
}

unfoldable pub get : VarStore → String → Option VarHandle
get vs var_id = lookup var_id vs.by_var

unfoldable pub resolve : VarStore → String → Option VarHandle
resolve vs chunk_id = lookup chunk_id vs.by_chunk

-- `d.pop(k, None)`
unfoldable pub pop : String → List (String × VarHandle) → List (String × VarHandle)
pop k [] = []
pop k ((j, h) ∷ m) = if str_eq j k then m else (j, h) ∷ pop k m

unfoldable pub remove : VarStore → String → VarStore
unfolding pop
remove vs var_id = elim (lookup var_id vs.by_var) [
  | none ↦ vs
  | some h ↦ record { by_var = pop var_id vs.by_var; by_chunk = pop h.chunk_id vs.by_chunk }
]

unfoldable pub clear : VarStore → VarStore
clear vs = no_vars

pub record ExpandResult : Type 0 where
  pub var_id : String
  pub used : Bits
  pub mode : AbsorbMode
  pub budget_remaining : ℕ

-- `bits <= 4.0 and sess.consume_bits(bits)`: the session after the attempt, and the mode.
unfoldable pub charge_expansion : Session → Bits → Session × AbsorbMode
charge_expansion sess unbounded = (sess, full)
charge_expansion sess (bits n) =
    let (sess', paid) = consume_bits sess n in
    if leb n 4 then (if paid then (sess', bounded) else (sess, full)) else (sess, full)

unfoldable pub expand :
    VarStore
    → Session
    → String
    → VType
    → Option Trust
    → Option Clearance
    → Result (ExpandResult × Session)
expand vs sess var_id vtype source_trust sensitivity = elim (get vs var_id) [
  | none ↦ raise key_error
  | some h ↦ do
    b ← capacity_of vtype
    let (charged, mode) = charge_expansion sess b
    let after =
        absorb charged h.chunk_id (get_or sensitivity h.sensitivity)
          (get_or source_trust h.source_trust) mode
    ok (
      record {
        var_id = var_id;
        used = b;
        mode = mode;
        budget_remaining = capacity_budget_bits - after.capacity_used_bits;
      },
      after,
    )
]
