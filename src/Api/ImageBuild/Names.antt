-- ===== src/Api/ImageBuild/Names.antt =====
-- api/builds/v1alpha1/imagebuild_types.go: the names of builds and of their jobs.
-- Parameters: the mapping of one rune by strings.ToLower, and the digest of the build inputs
-- (json.Marshal, sha256 and hex), of which the first eight digits are taken.
pub mod Dashes
pub mod Labels
pub mod Bounds
pub mod Fixed
use cluster_agent.Prelude.{
  ℕ, String, Bool, true, false, not, List, [], ◌∷◌, ◌++◌, map, Char, chars, of_chars, length, take,
  ltb, ◌-◌, replace_runs, dash, is_dash, is_lower_alnum, is_empty, trim_left, trim_right,
  trim_dash_suffix, if◌then◌else◌,
}
use cluster_agent.Api.ImageBuild.{ImageBuildSpec, ImageBuild}
use cluster_agent.Api.StackResource.{BuildSpec, get_source_revision_string}

-- strings.Trim(s, "-")
unfoldable pub trim_dashes : List Char → List Char
unfolding trim_left trim_right
trim_dashes s = trim_right is_dash (trim_left is_dash s)

-- SanitizeDNSLabel
unfoldable pub sanitize_dns_label : (Char → Char) → List Char → List Char → List Char
unfolding replace_runs trim_dashes
sanitize_dns_label lower s fallback =
    let t = trim_dashes (replace_runs is_lower_alnum false (map lower s)) in
    if is_empty t then fallback else t

abbrev pub image_build_name_max_len : ℕ
image_build_name_max_len = 100

abbrev pub build_inputs_hash_len : ℕ
build_inputs_hash_len = 8

abbrev pub build_job_suffix : List Char
build_job_suffix = chars "-build"

abbrev pub max_label_value_len : ℕ
max_label_value_len = 63

abbrev pub max_resource_name_in_job : ℕ
max_resource_name_in_job = max_label_value_len - build_inputs_hash_len - length build_job_suffix - 1

-- Both names cut their prefix and drop a dash that the cut leaves at its end.
unfoldable pub cut_prefix : ℕ → List Char → List Char
unfolding trim_dash_suffix
cut_prefix max_len name =
    if ltb max_len (length name) then trim_dash_suffix (take max_len name) else name

-- What the two digests read.
pub record Digests : Type 0 where
  pub of_build_spec : BuildSpec → List Char
  pub of_image_build_spec : ImageBuildSpec → List Char

-- buildInputsHash
abbrev pub build_inputs_hash : {A : Type 0} → (A → List Char) → A → List Char
build_inputs_hash digest inputs = take build_inputs_hash_len (digest inputs)

-- The prefix of an ImageBuild's name, before it is cut.
unfoldable pub readable_name : (Char → Char) → String → BuildSpec → List Char
unfolding sanitize_dns_label get_source_revision_string
readable_name lower resource_name spec =
    let clean_name = sanitize_dns_label lower (chars resource_name) (chars "app") in
    let revision = chars (get_source_revision_string spec.source_revision) in
    let clean_rev = sanitize_dns_label lower revision (chars "rev") in
    clean_name ++ (dash ∷ clean_rev)

-- ImageBuildName
unfoldable pub image_build_name : (Char → Char) → Digests → String → BuildSpec → String
unfolding readable_name cut_prefix
image_build_name lower digests resource_name spec =
    let name = readable_name lower resource_name spec in
    let prefix = cut_prefix (image_build_name_max_len - build_inputs_hash_len - 1) name in
    of_chars (prefix ++ (dash ∷ build_inputs_hash digests.of_build_spec spec))

-- BuildJobName
unfoldable pub build_job_name : (Char → Char) → Digests → ImageBuild → String
unfolding sanitize_dns_label cut_prefix
build_job_name lower digests w =
    let clean_name = sanitize_dns_label lower (chars w.spec.resource_name) (chars "app") in
    let prefix = cut_prefix max_resource_name_in_job clean_name in
    let inputs : ImageBuildSpec = record w.spec { cancelled = false } in
    let hash = build_inputs_hash digests.of_image_build_spec inputs in
    of_chars (prefix ++ (dash ∷ (hash ++ build_job_suffix)))
