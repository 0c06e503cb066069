-- ===== src/Registry/Reference.antt =====
-- pkg/registry/reference.go: the image reference of a build.
-- Parameters: the mapping of one rune by strings.ToLower, the host that url.Parse finds, and the
-- answer of the API for a ClusterRegistry, of which the conditions and the internal URL are read.
pub mod Tags
use cluster_agent.Prelude.{
  ℕ, String, Bool, true, false, Option, some, none, List, [], ◌∷◌, map, Char, chars, of_chars,
  is_char, length, take, ltb, is_lower_alnum, trim_left, trim_right, replace_runs, str_eq, concat,
  Result, ok, err, ◌||◌, ◌&&◌, leb, if◌then◌else◌,
}
use Prim.Native.Char.{code}
use text.Mathlib.Text.{find?}
use cluster_agent.Prelude.{is_some}
use cluster_agent.Api.Meta.{Condition, ConditionOps, is_condition_true}
use cluster_agent.Api.StackResource.{ImageRepositorySpec, ExternalRegistrySpec}

pub record ResolvedRepository : Type 0 where
  pub host : String
  pub repository : String
  pub tag : String
  pub insecure : Bool
  pub auth_url : String

-- What a caller tells apart of the results: errors.Is with ErrRegistryNotReady.
pub data Resolution : Type 0 where
  resolved : ResolvedRepository → Resolution
  registry_not_ready : Resolution
  resolve_error : String → Resolution

-- A ClusterRegistry, as far as read.
pub record ClusterRegistryView : Type 0 where
  pub conditions : List Condition
  pub internal_url : String

-- Reference
unfoldable pub reference : ResolvedRepository → String
unfolding concat
reference r = concat (r.host ∷ "/" ∷ r.repository ∷ ":" ∷ r.tag ∷ [])

-- `[a-zA-Z0-9_.-]`
abbrev pub is_tag_char : Char → Bool
is_tag_char c =
    is_lower_alnum c
    || (leb b'A' (code c) && leb (code c) b'Z')
    || (is_char c "_" || is_char c "." || is_char c "-")

-- the cutset "-._"
abbrev pub is_separator : Char → Bool
is_separator c = is_char c "-" || is_char c "." || is_char c "_"

-- SanitizeTag
unfoldable pub sanitize_tag : (Char → Char) → String → String
unfolding replace_runs trim_left trim_right
sanitize_tag lower s =
    let t =
      trim_right is_separator
        (trim_left is_separator (replace_runs is_tag_char false (map lower (chars s)))) in
    of_chars (if ltb 128 (length t) then take 128 t else t)

-- ResolveTag
unfoldable pub resolve_tag : (Char → Char) → Option String → String → String
unfolding sanitize_tag
resolve_tag lower fixed_tag source_revision = elim fixed_tag [
  | none ↦ sanitize_tag lower source_revision
  | some tag ↦ if str_eq tag "" then sanitize_tag lower source_revision else tag
]

-- hostFromURL
unfoldable pub host_from_url : (String → Result String) → String → Result String
unfolding concat
host_from_url parse_host raw =
    parse_host (if is_some (find? raw "://") then raw else concat ("http://" ∷ raw ∷ []))

-- authURLForHost
unfoldable pub auth_url_for_host : String → String
auth_url_for_host host =
    if str_eq host "docker.io" || str_eq host "index.docker.io"
    then "https://index.docker.io/v1/"
    else host

-- The fields that every case fills.
abbrev pub start_of : (Char → Char) → ImageRepositorySpec → String → ResolvedRepository
start_of lower spec source_revision = record {
  host = "";
  repository = spec.repository;
  tag = resolve_tag lower spec.fixed_tag source_revision;
  insecure = false;
  auth_url = "";
}

abbrev pub after_host : ResolvedRepository → String → Result String → Resolution
after_host out name (err e) =
    resolve_error (concat ("invalid cluster registry internalUrl: " ∷ e ∷ []))
after_host out name (ok host) =
    if str_eq host ""
    then resolve_error (concat ("cluster registry " ∷ name ∷ " internalUrl has no host" ∷ []))
    else resolved (record out { host = host; insecure = true; auth_url = host })

module _ ⦃ops : ConditionOps⦄ where
  abbrev pub after_registry :
      (String → Result String)
      → ResolvedRepository
      → String
      → Result (Option ClusterRegistryView)
      → Resolution
  after_registry parse_host out name (err e) =
      resolve_error (concat ("failed to get cluster registry " ∷ name ∷ ": " ∷ e ∷ []))
  after_registry parse_host out name (ok none) =
      resolve_error (concat ("cluster registry " ∷ name ∷ " not found" ∷ []))
  after_registry parse_host out name (ok (some reg)) =
      if is_condition_true reg.conditions "Ready"
      then after_host out name (host_from_url parse_host reg.internal_url)
      else registry_not_ready

  -- ResolveImageRepository
  unfoldable pub resolve_image_repository :
      (Char → Char)
      → (String → Result String)
      → (String → Result (Option ClusterRegistryView))
      → ImageRepositorySpec
      → String
      → Resolution
  unfolding resolve_tag host_from_url auth_url_for_host concat
  resolve_image_repository lower parse_host get_registry spec source_revision =
      let out = start_of lower spec source_revision in
      elim spec.cluster_registry_ref [
        | some name ↦ after_registry parse_host out name (get_registry name)
        | none ↦ elim spec.external [
          | some external ↦ resolved (record out {
            host = external.host;
            insecure = elim external.tls_insecure [ none ↦ false | some b ↦ b ];
            auth_url = auth_url_for_host external.host;
          })
          | none ↦ resolve_error "image repository spec has neither clusterRegistryRef nor external"
        ]
      ]
