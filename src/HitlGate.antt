-- ===== src/HitlGate.antt =====
-- pep/hitl.py: the confirmation of tool calls by a fixed policy, in lower case.
use trustmem.Prelude.{String, Bool, true, false, ◌||◌, ◌≡◌, str_eq, if◌then◌else◌, arith}
use trustmem.Result.{Result, ok, raise, not_implemented}

pub data HitlDecision : Type 0 where
  allow_once allow_session deny : HitlDecision

pub record HitlResult : Type 0 where
  pub decision : HitlDecision
  pub signature : String
  pub action_fingerprint : String

abbrev pub approved : HitlResult → Bool
approved r = elim r.decision [ allow_once ↦ true | allow_session ↦ true | deny ↦ false ]

abbrev result : HitlDecision → String → HitlResult
result d fp = record { decision = d; signature = ""; action_fingerprint = fp }

-- `HITLGate.request`, with the fingerprint of the decision's object.
unfoldable pub request : String → String → Result HitlResult
request policy fp =
    if str_eq policy "once"
    then ok (result allow_once fp)
    else if str_eq policy "session"
    then ok (result allow_session fp)
    else if str_eq policy "deny"
    then ok (result deny fp)
    else if str_eq policy "interactive"
    then raise not_implemented
    else ok (result deny fp)

abbrev is_approved : Result HitlResult → Bool
is_approved (raise e) = false
is_approved (ok r) = approved r

-- A call is approved under the two policies that say so, and under no other text.
pub request-approved :
    (policy fp : String)
    → is_approved (request policy fp) ≡ (str_eq policy "once" || str_eq policy "session")
unfolding request
request-approved policy fp = ground arith
