-- ===== src/Upgrader.antt =====
-- core/upgrader.py: the upgrade of a memory's trust by evidence, and of a session's. Parsing of JSON
-- and of addresses, the regular expression of a CVE number and the presence of gmssl are a record
-- of operations; the random suffix of an identifier and the time are arguments or left out.
pub mod Sources
pub mod Warrant
pub mod Endorser
use Prim.Native.String.{◌++◌ as append, count}
use trustmem.Prelude.{
  ℕ, suc, min, String, Bool, true, false, ◌&&◌, ◌||◌, not, Option, none, some, List, [], ◌∷◌, ◌++◌,
  ltb, leb, ◌==◌, any, nonempty, str_eq, contains, if◌then◌else◌,
}
use trustmem.Result.{Result, ok, raise, permission_error}
use trustmem.Labels.{
  MemoryLabel, Trust, t2_medium, t3_high, Layer, directive, conclusion, reasoning, MemoryType,
  semantic, episodic, trajectory, procedural, intel,
}
use trustmem.Labels.Lattice.{trust_level, trust_of, trust_leb}
use trustmem.Session.{Session, raise_trust_via_gate}
use trustmem.Upgrader.Sources.{SourceRegistry, independent_sources}

pub data EvidenceType : Type 0 where
  cross_source structural local_consistency human : EvidenceType

pub record Evidence : Type 0 where
  pub etype : EvidenceType
  pub source_urls : List String
  pub consistent : Bool
  pub validator : String
  pub matched_chunks : List String
  pub human_signature : String

-- Why an upgrade is refused, or the kind of its evidence.
pub data Reason : Type 0 where
  no_verifier no_signature bad_signature few_sources inconsistent unknown_validator not_validated :
      Reason
  no_match at_limit : Reason
  upgraded : EvidenceType → Reason

pub record AnchorPayload : Type 0 where
  pub chunk_id : String
  pub upgraded_from : String
  pub before : Trust
  pub after : Trust
  pub evidence : Evidence

pub record UpgradeResult : Type 0 where
  pub applied : Bool
  pub trust_before : Trust
  pub trust_after : Trust
  pub reason : Reason
  pub anchor_payload : Option AnchorPayload
  pub new_chunk : Option MemoryLabel

pub record AnchorReceipt : Type 0 where
  pub tx_id : String
  pub verified : Bool

-- What `json.loads` gives, as far as the validator reads it: the `type` of an object, if it has one
-- that is a text, and those of a list's elements that are objects.
pub data Json : Type 0 where
  json_object : Option String → Json
  json_list : List (Option (Option String)) → Json
  json_other : Json

pub record Externals : Type 0 where
  pub loads : String → Option Json
  -- `re.fullmatch(r"CVE-\d{4}-\d{4,}", content.strip())`
  pub is_cve : String → Bool
  pub has_gmssl : Bool
  -- `urlparse(url).netloc.lower()`, or `url.lower()` if that fails.
  pub host_of : String → String

abbrev is_type : List String → Option String → Bool
is_type wanted none = false
is_type wanted (some t) = contains t wanted

abbrev is_indicator : Option (Option String) → Bool
is_indicator none = false
is_indicator (some t) = is_type ("indicator" ∷ []) t

abbrev layer_number : Layer → ℕ
layer_number directive = 0
layer_number conclusion = 1
layer_number reasoning = 2

abbrev type_number : MemoryType → ℕ
type_number semantic = 0
type_number episodic = 1
type_number trajectory = 2
type_number procedural = 3
type_number intel = 4

module _ (ex : Externals) where
  unfoldable pub validate_stix2_ioc : String → Bool
  validate_stix2_ioc content = elim (ex.loads content) [
    | none ↦ false
    | some (json_object t) ↦ is_type ("bundle" ∷ "indicator" ∷ []) t
    | some (json_list items) ↦ any is_indicator items
    | some json_other ↦ false
  ]

  unfoldable pub validate_sm2_signature : String → Bool
  validate_sm2_signature content = ex.has_gmssl && leb 64 (count content)

  -- `VALIDATORS.get`
  unfoldable pub validator_for : String → Option (String → Bool)
  unfolding validate_stix2_ioc validate_sm2_signature
  validator_for name =
      if str_eq name "stix2_ioc"
      then some validate_stix2_ioc
      else if str_eq name "cve_exists"
      then some ex.is_cve
      else if str_eq name "sm2_sig" || str_eq name "gmssl_sm2"
      then some validate_sm2_signature
      else none

  pub record Upgrader : Type 0 where
    pub registry : Option SourceRegistry
    pub chunk_lookup : Option (String → Option MemoryLabel)

abbrev pub min_independent_sources : ℕ
min_independent_sources = 2

-- `Trust(min(3, int(before) + 1))`
unfoldable pub one_up : Trust → Trust
unfolding trust_level trust_of
one_up before = trust_of (min 3 (suc (trust_level before)))

unfoldable pub fits : MemoryLabel → MemoryLabel → Bool
fits mem m =
    leb 2 (trust_level m.provenance_trust)
    && (layer_number m.layer == layer_number mem.layer
        && (type_number m.memory_type == type_number mem.memory_type
            && str_eq m.task_binding mem.task_binding))

abbrev pub cons_found : MemoryLabel → Option (List MemoryLabel) → Option (List MemoryLabel)
cons_found m none = none
cons_found m (some ms) = some (m ∷ ms)

-- A memory that does not exist or does not fit ends the search.
abbrev pub found_then :
    MemoryLabel → Option MemoryLabel → Option (List MemoryLabel) → Option (List MemoryLabel)
found_then mem none rest = none
found_then mem (some m) rest = if fits mem m then cons_found m rest else none

unfoldable pub match_all :
    (String → Option MemoryLabel) → MemoryLabel → List String → Option (List MemoryLabel)
unfolding fits
match_all chunk_lookup mem [] = some []
match_all chunk_lookup mem (cid ∷ chunk_ids) =
    let rest = match_all chunk_lookup mem chunk_ids in found_then mem (chunk_lookup cid) rest

-- A refusal, or the trust that the evidence warrants.
pub data Grant : Type 0 where
  refused : Reason → Grant
  granted : Trust → Grant

abbrev grant_if : Bool → Reason → Grant → Grant
grant_if true reason next = next
grant_if false reason next = refused reason

module _ (ex : Externals) where
  -- `_resolve_matched`
  unfoldable pub resolve_matched :
      Upgrader ex → List String → MemoryLabel → Option (List MemoryLabel)
  unfolding match_all
  resolve_matched up [] mem = none
  resolve_matched up (cid ∷ chunk_ids) mem = elim up.chunk_lookup [
    | none ↦ none
    | some chunk_lookup ↦ match_all chunk_lookup mem (cid ∷ chunk_ids)
  ]

  -- The branches on the kind of the evidence.
  unfoldable pub grant :
      Upgrader ex
      → MemoryLabel
      → Evidence
      → Option (String → String → Bool)
      → Option String
      → EvidenceType
      → Grant
  unfolding one_up resolve_matched validator_for independent_sources
  grant up mem ev none content human = refused no_verifier
  grant up mem ev (some sig_verifier) content human =
      grant_if (not (str_eq ev.human_signature "")) no_signature
        (grant_if (sig_verifier ev.human_signature mem.chunk_id) bad_signature (granted t3_high))
  grant up mem ev sig_verifier content cross_source =
      grant_if
        (leb min_independent_sources (independent_sources ex.host_of ev.source_urls up.registry))
        few_sources (grant_if ev.consistent inconsistent (granted (one_up mem.provenance_trust)))
  grant up mem ev sig_verifier content structural = elim (validator_for ex ev.validator) [
    | none ↦ refused unknown_validator
    | some validator ↦ elim content [
      | none ↦ refused not_validated
      | some text ↦ grant_if (validator text) not_validated (granted (one_up mem.provenance_trust))
    ]
  ]
  grant up mem ev sig_verifier content local_consistency =
      elim (resolve_matched up ev.matched_chunks mem) [
        | none ↦ refused no_match
        | some matched ↦ granted (one_up mem.provenance_trust)
      ]

  -- `_derive_chunk`, with the suffix that was drawn.
  unfoldable pub derive_chunk : MemoryLabel → Trust → String → MemoryLabel
  derive_chunk mem after suffix = record mem {
    chunk_id = append mem.chunk_id (append "-up-" suffix);
    provenance_trust = after;
    upgraded_from = some mem.chunk_id;
    provenance_chain = mem.provenance_chain ++ (mem.chunk_id ∷ []);
  }

  unfoldable pub refusal : MemoryLabel → Reason → UpgradeResult
  refusal mem reason = record {
    applied = false;
    trust_before = mem.provenance_trust;
    trust_after = mem.provenance_trust;
    reason = reason;
    anchor_payload = none;
    new_chunk = none;
  }

  -- The end of `try_upgrade`.
  unfoldable pub conclude : MemoryLabel → Evidence → String → Grant → UpgradeResult
  unfolding refusal derive_chunk trust_level
  conclude mem ev suffix (refused reason) = refusal mem reason
  conclude mem ev suffix (granted after) =
      let new_chunk = derive_chunk mem after suffix in
      if trust_leb after mem.provenance_trust then refusal mem at_limit else record {
        applied = true;
        trust_before = mem.provenance_trust;
        trust_after = after;
        reason = upgraded ev.etype;
        anchor_payload = some record {
          chunk_id = new_chunk.chunk_id;
          upgraded_from = mem.chunk_id;
          before = mem.provenance_trust;
          after = after;
          evidence = ev;
        };
        new_chunk = some new_chunk;
      }

  unfoldable pub try_upgrade :
      Upgrader ex
      → MemoryLabel
      → Evidence
      → Option (String → String → Bool)
      → Option String
      → String
      → UpgradeResult
  unfolding grant conclude
  try_upgrade up mem ev sig_verifier content suffix =
      conclude mem ev suffix (grant up mem ev sig_verifier content ev.etype)

abbrev pub is_anchored : Option AnchorReceipt → Bool
is_anchored none = false
is_anchored (some receipt) = receipt.verified

-- The only way in which a session's trust rises.
unfoldable pub apply_to_session : Session → UpgradeResult → Option AnchorReceipt → Result Session
unfolding raise_trust_via_gate
apply_to_session sess result anchor_receipt =
    if not result.applied
    then raise permission_error
    else if not (is_anchored anchor_receipt)
    then raise permission_error
    else ok (raise_trust_via_gate sess result.trust_after)
