-- ===== src/Upgrader/Sources.antt =====
-- core/upgrader.py: the registry of sources, and how many of them are independent.
use Prim.Native.Char.{code}
use Prim.Native.String.{◌++◌ as append}
use trustmem.Prelude.{
  ℕ, ◌≡◌, refl, ap, String, Option, none, some, List, [], ◌∷◌, str_eq, ◌==◌, length, lookup, insert,
  add, if◌then◌else◌,
}

-- `host.split(".")`
unfoldable pub split_dots : String → String → List String
split_dots acc String.[] = acc ∷ []
split_dots acc (String.◌∷◌ c s) =
    if code c == b'.'
    then acc ∷ split_dots "" s
    else split_dots (append acc (String.◌∷◌ c String.[])) s

-- The last two parts joined by a dot, or the host itself if it has one part.
abbrev last_two : String → List String → String
last_two host [] = host
last_two host (a ∷ []) = host
last_two host (a ∷ b ∷ []) = append a (append "." b)
last_two host (a ∷ b ∷ c ∷ parts) = last_two host (b ∷ c ∷ parts)

-- `_second_level`
unfoldable pub second_level : String → String
unfolding split_dots
second_level host = last_two host (split_dots "" host)

pub record SourceRegistry : Type 0 where
  pub publisher : List (String × String)
  pub asn : List (String × String)

abbrev pub or_else : String → String → String
or_else s fallback = if str_eq s "" then fallback else s

-- `register`, for a domain in lower case.
unfoldable pub register : SourceRegistry → String → String → String → SourceRegistry
register r domain publisher asn = record {
  publisher = insert domain (or_else publisher domain) r.publisher;
  asn = insert domain asn r.asn;
}

abbrev get : List (String × String) → String → String → String
get m k fallback = elim (lookup k m) [ none ↦ fallback | some v ↦ v ]

module _ (host_of : String → String) where
  unfoldable pub resolve_publisher : SourceRegistry → String → String
  unfolding lookup second_level
  resolve_publisher r url = get r.publisher (host_of url) (second_level (host_of url))

  unfoldable pub resolve_asn : SourceRegistry → String → String
  unfolding lookup
  resolve_asn r url = get r.asn (host_of url) ""

  -- The set of names that the sources count under.
  unfoldable pub entities : Option SourceRegistry → List String → List String → List String
  unfolding resolve_publisher add
  entities registry seen [] = seen
  entities none seen (u ∷ urls) = entities none (add (second_level (host_of u)) seen) urls
  entities (some r) seen (u ∷ urls) =
      entities (some r) (add (or_else (resolve_publisher r u) (second_level (host_of u))) seen) urls

  -- `_independent_sources`
  unfoldable pub independent_sources : List String → Option SourceRegistry → ℕ
  unfolding entities
  independent_sources urls registry = length (entities registry [] urls)

  -- The number of independent sources is the same whatever the registry knows of networks.
  pub independent_sources_any_asn :
      (r : SourceRegistry) (asn : List (String × String)) (urls : List String)
      → independent_sources urls (some (record r { asn = asn })) ≡ independent_sources urls (some r)
  unfolding independent_sources
  independent_sources_any_asn r asn urls = ap length (same_entities urls [])
    where
      same_entities :
          (us seen : List String)
          → entities (some (record r { asn = asn })) seen us ≡ entities (some r) seen us
      same_entities [] seen = refl
      same_entities (u ∷ us) seen = same_entities us _
