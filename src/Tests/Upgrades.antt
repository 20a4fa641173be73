-- ===== src/Tests/Upgrades.antt =====
-- Upgrades, signatures, anchors and manifests on concrete inputs.
use trustmem.Prelude.{
  ℕ, ◌<◌, String, true, false, ◌&&◌, Option, none, some, List, [], ◌∷◌, ◌++◌, ◌≡◌, ◌↔◌, refl, map,
  all, nonempty, contains, str_eq, if◌then◌else◌,
}
use trustmem.Result.{ok}
use trustmem.Labels.{MemoryLabel, t0_untrusted, t2_medium}
use trustmem.Labels.Lattice.{trust_level, max_trust}
use trustmem.Session.{Session, start, raise_trust_via_gate}
use trustmem.Upgrader.{
  Evidence, cross_source, Externals, Upgrader, AnchorReceipt, try_upgrade, is_anchored,
  apply_to_session, grant, conclude, one_up,
}
use trustmem.Upgrader.Warrant.{Warranted, try_upgrade-applied_iff, apply_to_session-Warranted}
use trustmem.WriterSign.{
  Bytes, Ecdsa, MemorySigner, new_signer, sign, verify, by_backend, canonical_payload, sign-verify,
}
use trustmem.AnchorQueue.{
  AnchorReceipt as Receipt, AnchorQueue, drain_now, send, drain_now-receipts,
}
use trustmem.Manifest.{synthesize, synthesize-contains}
use trustmem.Tests.Fixtures.{note, session}

abbrev externals : Externals
externals = record {
  loads = λ content. none;
  is_cve = λ content. str_eq content "CVE-2024-0001";
  has_gmssl = false;
  host_of = λ url. url;
}

abbrev upgrader : Upgrader externals
upgrader = record { registry = none; chunk_lookup = none }

abbrev crossing : Evidence
crossing = record {
  etype = cross_source;
  source_urls = "a.example.org" ∷ "b.example.com" ∷ [];
  consistent = true;
  validator = "";
  matched_chunks = [];
  human_signature = "";
}

try_upgrade-applied_iff_example :
    ((try_upgrade externals upgrader note crossing none none "1").applied ≡ true) ↔ (
      Warranted externals upgrader note crossing none none cross_source
      × (trust_level note.provenance_trust < 3))
try_upgrade-applied_iff_example =
    try_upgrade-applied_iff externals upgrader note crossing none none "1"

abbrev receipt : AnchorReceipt
receipt = record { tx_id = "tx"; verified = true }

abbrev low : Session
low = record session { t_eff = t0_untrusted }

abbrev lifted : Session
lifted = record session { t_eff = t2_medium }

raised :
    apply_to_session low (try_upgrade externals upgrader note crossing none none "1") (some receipt)
    ≡ ok lifted
unfolding apply_to_session try_upgrade raise_trust_via_gate grant conclude one_up contains start
    max_trust
raised = refl

apply_to_session-Warranted_example :
    Warranted externals upgrader note crossing none none cross_source
    × (trust_level note.provenance_trust < 3)
    × (is_anchored (some receipt) ≡ true)
    × (lifted ≡ record low { t_eff = max_trust low.t_eff (one_up note.provenance_trust) })
apply_to_session-Warranted_example =
    apply_to_session-Warranted externals upgrader note crossing none none "1" low lifted
      (some receipt) raised

-- A signature is the key in front of the payload.
abbrev ecdsa : Ecdsa
ecdsa = record {
  PrivateKey = ℕ;
  PublicKey = ℕ;
  public_key = λ key. key;
  sha256 = λ bytes. bytes;
  dumps = λ payload. payload.epoch ∷ payload.ciphertext_digest;
  sign = λ payload key. key ∷ payload;
  verify = λ payload sig key. true;
  verify-sign = λ payload key. refl;
}

sign-verify_example :
    (signer : MemorySigner ecdsa) × (sig : Bytes) × (sign ecdsa
        (new_signer ecdsa (some 5) "ecdsa" [])
        note
        (1 ∷ [])
      ≡ ok (sig, signer))
    × (verify ecdsa signer note (1 ∷ []) ≡ ok true)
    × ((other : MemoryLabel) (ct : Bytes)
        → verify ecdsa signer other ct ≡ (
            if str_eq note.chunk_id other.chunk_id
            then by_backend ecdsa "ecdsa" (ecdsa.verify (canonical_payload ecdsa other ct) sig 5)
            else verify ecdsa (new_signer ecdsa (some 5) "ecdsa" []) other ct))
sign-verify_example = sign-verify ecdsa 5 [] note (1 ∷ [])

-- A backend that fails on one root.
abbrev backend : Bytes → ℕ → Option Receipt
backend [] details = none
backend (b ∷ root) details = some record { tx_id = "tx"; verified = true; root = some (b ∷ root) }

abbrev queue : AnchorQueue backend
queue = record {
  waiting = ([], 1) ∷ (9 ∷ [], 2) ∷ [];
  held_by_worker = none;
  held_by_drainer = none;
  receipts = [];
}

drain_now-receipts_example :
    ((drain_now backend queue).0.waiting ≡ [])
    × ((drain_now backend queue).1 ≡ queue.receipts ++ map (send backend) queue.waiting)
drain_now-receipts_example = drain_now-receipts backend queue refl

abbrev sources : List (List String)
sources = ("log_query" ∷ []) ∷ ("web_search" ∷ "log_query" ∷ []) ∷ []

synthesize-contains_example :
    contains "log_query" (synthesize sources)
    ≡ (nonempty sources && all (contains "log_query") sources)
synthesize-contains_example = synthesize-contains "log_query" sources
