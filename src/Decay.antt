-- ===== src/Decay.antt =====
-- core/decay.py: the trust of a written memory. `difflib`'s ratio and the floating-point numbers
-- are the section's parameter `m`.
pub mod Laws
use mathlib.Core.Option.{get_or}
use trustmem.Prelude.{
  ℕ, ◌-◌, ◌≡◌, String, Bool, true, false, ◌&&◌, ◌||◌, Option, none, some, List, [], ◌∷◌, ltb, min,
  if◌then◌else◌, any, str_eq,
}
use trustmem.Labels.{Trust, WriteOp, verbatim, extract, summarize, infer, fuse, MemoryLabel}
use trustmem.Labels.Lattice.{trust_level, trust_of, meet_trust, trusts}

-- Why a claim of an operation without decay was not accepted.
pub data Downgrade : Type 0 where
  too_long low_overlap schema_failed schema_missing : Downgrade

pub record DecayResult : Type 0 where
  pub trust_out : Trust
  pub op_claimed : WriteOp
  pub op_effective : WriteOp
  pub t_inputs : Trust
  pub t_agent : Trust
  pub delta : ℕ
  pub downgraded_reason : Option Downgrade

-- The similarity of texts, and the order of the ratios, with 0.0 below `VERBATIM_OVERLAP_THRESHOLD`.
pub record Matcher : Type 1 where
  pub Ratio : Type 0
  pub zero_ratio : Ratio
  pub max_ratio : Ratio → Ratio → Ratio
  pub below_threshold : Ratio → Bool
  -- `SequenceMatcher(None, src, out, autojunk=True).ratio()`
  pub sequence_ratio : String → String → Ratio
  -- `len(text)`
  pub text_len : String → ℕ
  pub zero_below : below_threshold zero_ratio ≡ true
  pub max_below :
      (a b : Ratio) → below_threshold (max_ratio a b) ≡ (below_threshold a && below_threshold b)

abbrev pub max_verbatim_len : ℕ
max_verbatim_len = 10_000

unfoldable pub delta_of : WriteOp → ℕ
delta_of verbatim = 0
delta_of extract = 0
delta_of summarize = 1
delta_of infer = 1
delta_of fuse = 1

-- What a writer hands to the check of its claim.
pub record Evidence : Type 0 where
  pub input_texts : List String
  pub output_text : String
  pub schema_ok : Option Bool

abbrev check_schema : Option Bool → WriteOp × Option Downgrade
check_schema (some false) = (infer, some schema_failed)
check_schema none = (infer, some schema_missing)
check_schema (some true) = (extract, none)

module _ (m : Matcher) where
  -- `_overlap_ratio`
  unfoldable pub overlap_ratio : String → String → m.Ratio
  overlap_ratio src out = if str_eq out "" then m.zero_ratio else m.sequence_ratio src out

  -- `max((... for s in input_texts), default=0.0)`
  unfoldable pub best_overlap : List String → String → m.Ratio
  unfolding overlap_ratio
  best_overlap [] out = m.zero_ratio
  best_overlap (s ∷ []) out = overlap_ratio s out
  best_overlap (s ∷ t ∷ ts) out = m.max_ratio (overlap_ratio s out) (best_overlap (t ∷ ts) out)

  unfoldable pub any_too_long : Evidence → Bool
  any_too_long ev =
      ltb max_verbatim_len (m.text_len ev.output_text)
      || any (λ s. ltb max_verbatim_len (m.text_len s)) ev.input_texts

  unfoldable pub verify_op : WriteOp → Evidence → WriteOp × Option Downgrade
  verify_op verbatim ev =
      if any_too_long ev
      then (infer, some too_long)
      else if m.below_threshold (best_overlap ev.input_texts ev.output_text)
      then (infer, some low_overlap)
      else (verbatim, none)
  verify_op extract ev = check_schema ev.schema_ok
  verify_op op ev = (op, none)

  -- `max(0, raw)` is the subtraction on ℕ.
  unfoldable pub compute_trust : List MemoryLabel → Trust → WriteOp → Evidence → DecayResult
  compute_trust input_mems agent_trust_effective op_claimed ev =
      let (op_eff, reason) = verify_op op_claimed ev in
      let t_in = meet_trust (trusts input_mems) in
      let delta = delta_of op_eff in
      record {
        trust_out = trust_of (min (trust_level t_in) (trust_level agent_trust_effective) - delta);
        op_claimed = op_claimed;
        op_effective = op_eff;
        t_inputs = t_in;
        t_agent = agent_trust_effective;
        delta = delta;
        downgraded_reason = reason;
      }
