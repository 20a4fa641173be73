-- ===== src/Manifest.antt =====
-- manifest/schema.py, manifest/capability_infer.py: the capabilities that a task is left with, an
-- intersection of what its sources grant, and those that a content makes it need. Searching a text
-- for an address and for a data URI is an argument.
use trustmem.Prelude.{
  ℕ, String, Bool, true, ◌&&◌, ◌||◌, Option, none, some, List, [], ◌∷◌, ◌≡◌, refl, ap, map, all,
  any, nonempty, contains, add, str_eq, ltb, if◌then◌else◌, arith,
}
use text.Mathlib.TextEquality.{eq_iff}
use Prim.Native.String.{count}

abbrev pub capability_namespace : List String
capability_namespace =
    "file_read" ∷ "log_query" ∷ "asset_query" ∷ "memory.read" ∷ "file_write" ∷ "memory.write"
    ∷ "exec_command" ∷ "firewall_block" ∷ "host_isolate" ∷ "web_search" ∷ "intel_fetch"
    ∷ "external_api.call" ∷ "answer_to_user" ∷ "net.post" ∷ "context.inject" ∷ []

pub record CapabilityGrant : Type 0 where
  pub subject : String
  pub task_id : String
  pub capabilities : List String
  pub source : String
  pub session_id : String

-- `xs & ys`
unfoldable pub meet : List String → List String → List String
meet [] ys = []
meet (x ∷ xs) ys = let rest = meet xs ys in if contains x ys then x ∷ rest else rest

unfoldable pub compose_capabilities : List String → List String → List String
unfolding meet
compose_capabilities inferred registry = meet inferred registry

-- The loop of `synthesize`, with the result so far.
unfoldable pub narrow_by : Option (List String) → List (List String) → Option (List String)
unfolding meet
narrow_by result [] = result
narrow_by none (s ∷ sources) = narrow_by (some s) sources
narrow_by (some result) (s ∷ sources) = narrow_by (some (meet result s)) sources

-- `result or set()`
abbrev or_empty : Option (List String) → List String
or_empty none = []
or_empty (some result) = result

unfoldable pub synthesize : List (List String) → List String
unfolding narrow_by
synthesize sources = or_empty (narrow_by none sources)

unfoldable pub intersect_grants : List CapabilityGrant → List String
unfolding narrow_by
intersect_grants [] = []
intersect_grants (g ∷ grants) = or_empty (narrow_by none (map (λ h. h.capabilities) (g ∷ grants)))

abbrev pub send_markers : List String
send_markers = "发送至" ∷ "外发" ∷ "上传至" ∷ "回传" ∷ "转发至" ∷ "exfiltrate" ∷ []

abbrev pub base64_threshold : ℕ
base64_threshold = 2048

module _ (has_url is_data_uri : String → Bool) (stands_in : String → String → Bool) where
  -- `infer_from_content`; the length is that in characters.
  unfoldable pub infer_from_content : String → List String
  infer_from_content content =
      let has_send = any (λ m. stands_in m content) send_markers in
      let has_big_base64 = is_data_uri content || ltb base64_threshold (count content) in
      let posts = has_url content || (has_send || has_big_base64) in
      let caps = if posts then add "net.post" [] else [] in
      if str_eq content "" then [] else if has_big_base64 then add "context.inject" caps else caps

contains-meet :
    (k : String) (xs ys : List String) → contains k (meet xs ys) ≡ (contains k xs && contains k ys)
unfolding meet contains
contains-meet k [] ys = refl
contains-meet k (x ∷ xs) ys =
    ground (arith, contains-meet k xs ys, eq_iff x k, λ (e : x ≡ k). ap (λ t. contains t ys) e)

abbrev granted_so_far : String → Option (List String) → Bool
granted_so_far k none = true
granted_so_far k (some result) = contains k result

narrow_by_lem :
    (k : String) (result : List String) (sources : List (List String))
    → contains k (or_empty (narrow_by (some result) sources))
      ≡ (contains k result && all (contains k) sources)
unfolding narrow_by
narrow_by_lem k result [] = ground arith
narrow_by_lem k result (s ∷ sources) =
    ground (arith, narrow_by_lem k (meet result s) sources, contains-meet k result s)

-- A capability comes out of the synthesis exactly when there is a source and every source grants
-- it: so one empty source, or none at all, leaves nothing.
pub synthesize-contains :
    (k : String) (sources : List (List String))
    → contains k (synthesize sources) ≡ (nonempty sources && all (contains k) sources)
unfolding synthesize narrow_by contains
synthesize-contains k [] = refl
synthesize-contains k (s ∷ sources) = narrow_by_lem k s sources

-- What is granted for a content by the registry of the tools is granted by the registry, and is a
-- need of the content: an extraction that was tampered with can only take away.
pub compose_capabilities_lem :
    (k : String) (inferred registry : List String)
    → contains k (compose_capabilities inferred registry)
      ≡ (contains k inferred && contains k registry)
unfolding compose_capabilities
compose_capabilities_lem k inferred registry = contains-meet k inferred registry
