-- ===== src/Registry/Reference/Tags.antt =====
-- What the tags and the references of builds promise.
use cluster_agent.Prelude.{
  ℕ, zero, suc, ◌≤◌, ◌≡◌, ◌≢◌, refl, String, Bool, true, false, Option, some, none, List, [], ◌∷◌,
  Char, chars, chars-of_chars, length, take, ltb, All, arith, if◌then◌else◌, replace_runs,
  All-trim_left, All-trim_right, All-take, first_is, first_is-trim_left, first_is-trim_right, map,
  trim_left, trim_right, length-take, Bool-cases, inl, inr, str_eq, eq_iff, Result, ok, err, not,
}
use cluster_agent.Api.Meta.{ConditionOps, is_condition_true}
use cluster_agent.Api.StackResource.{ImageRepositorySpec}
use cluster_agent.Registry.Reference.{
  ResolvedRepository, resolved, ClusterRegistryView, is_tag_char, is_separator, sanitize_tag,
  resolve_tag, resolve_image_repository, host_from_url, after_host, after_registry, start_of,
}

abbrev IsTagChar : Char → Type 0
IsTagChar c = is_tag_char c ≡ true

-- Characters of a tag, at most 128 of them, and no separator in front.
pub record IsTag (s : List Char) : Type 0 where
  pub all_allowed : All IsTagChar s
  pub short : length s ≤ 128
  pub no_first_separator : first_is is_separator s ≡ false

replace_runs-IsTagChar :
    (run : Bool) (s : List Char) → All IsTagChar (replace_runs is_tag_char run s)
unfolding replace_runs
replace_runs-IsTagChar run [] = tt
replace_runs-IsTagChar run (c ∷ s) =
    let ih = replace_runs-IsTagChar (not (is_tag_char c)) s in
    elim (Bool-cases (is_tag_char c)) [
      | inl e ↦ ground (arith, e, ih)
      | inr e ↦ ground (arith, e, ih)
    ]

first_is-take :
    (n : ℕ) (s : List Char)
    → first_is is_separator s ≡ false
    → first_is is_separator (take n s) ≡ false
first_is-take zero s h = refl
first_is-take (suc n) [] h = refl
first_is-take (suc n) (c ∷ s) h = h

cut-IsTag :
    (t : List Char)
    → All IsTagChar t
    → first_is is_separator t ≡ false
    → IsTag (if ltb 128 (length t) then take 128 t else t)
cut-IsTag t all f = elim (Bool-cases (ltb 128 (length t))) [
  | inl e ↦ rw e (record {
    all_allowed = All-take IsTagChar 128 t all;
    short = length-take 128 t;
    no_first_separator = first_is-take 128 t f;
  })
  | inr e ↦ rw e (record { all_allowed = all; short = ground (arith, e); no_first_separator = f })
]

-- Whatever the revision and the mapping to lower case, the tag of a build is made of the characters
-- of a tag, has at most 128 of them, and does not begin with a separator; it may be empty.
pub sanitize_tag-IsTag : (lower : Char → Char) (s : String) → IsTag (chars (sanitize_tag lower s))
unfolding sanitize_tag
sanitize_tag-IsTag lower s =
    let a = replace_runs is_tag_char false (map lower (chars s)) in
    let b = trim_left is_separator a in
    let t = trim_right is_separator b in
    rw (chars-of_chars (if ltb 128 (length t) then take 128 t else t)) (
      cut-IsTag t
        (All-trim_right is_separator IsTagChar b (
          All-trim_left is_separator IsTagChar a
            (replace_runs-IsTagChar false (map lower (chars s)))))
        (first_is-trim_right is_separator b (first_is-trim_left is_separator a)))

-- A resolution from an answer of the API, one step at a time.
host-resolved :
    (out r : ResolvedRepository) (name : String) (h : Result String)
    → after_host out name h ≡ resolved r
    → (r.host ≢ "")
      × (h ≡ ok r.host)
      × (r ≡ record out { host = r.host; insecure = true; auth_url = r.host })
host-resolved out r name (err e) q = ground (arith, q)
host-resolved out r name (ok host) q = elim (Bool-cases (str_eq host "")) [
  | inl e ↦ ground (arith, e, q)
  | inr e ↦ ground (arith, e, q, eq_iff host "")
]

-- What a push to a cluster registry that was resolved rests on.
pub record IsReadyRegistry ⦃ops : ConditionOps⦄ (parse_host : String → Result String)
    (answer : Result (Option ClusterRegistryView)) (r : ResolvedRepository) : Type 0 where
  pub registry : ClusterRegistryView
  pub found : answer ≡ ok (some registry)
  pub ready : is_condition_true registry.conditions "Ready" ≡ true
  pub parsed : host_from_url parse_host registry.internal_url ≡ ok r.host
  pub host_given : r.host ≢ ""

module _ ⦃ops : ConditionOps⦄ (parse_host : String → Result String) where
  registry-resolved :
      (out r : ResolvedRepository) (name : String) (answer : Result (Option ClusterRegistryView))
      → after_registry parse_host out name answer ≡ resolved r
      → IsReadyRegistry parse_host answer r
        × (r ≡ record out { host = r.host; insecure = true; auth_url = r.host })
  registry-resolved out r name (err e) q = ground (arith, q)
  registry-resolved out r name (ok none) q = ground (arith, q)
  registry-resolved out r name (ok (some reg)) q =
      elim (Bool-cases (is_condition_true reg.conditions "Ready")) [
        | inr e ↦ ground (arith, e, q)
        | inl e ↦
            let (given, parsed, same) =
              host-resolved out r name (host_from_url parse_host reg.internal_url)
                (ground (arith, e, q)) in
            (
              record {
                registry = reg;
                found = refl;
                ready = e;
                parsed = parsed;
                host_given = given;
              },
              same,
            )
      ]

-- Where the repository names a cluster registry, a resolved reference has the repository's own name
-- and tag, is insecure, and has the host of the internal URL of that registry, which the API
-- returned, which is Ready, and whose host is not empty; registry credentials are for that host.
pub resolve_cluster_means :
    ⦃ops : ConditionOps⦄ (lower : Char → Char) (parse_host : String → Result String)
    (get_registry : String → Result (Option ClusterRegistryView)) (spec : ImageRepositorySpec)
    (source_revision name : String) (r : ResolvedRepository)
    → spec.cluster_registry_ref ≡ some name
    → resolve_image_repository lower parse_host get_registry spec source_revision ≡ resolved r
    → IsReadyRegistry parse_host (get_registry name) r
      × (r ≡ record {
        host = r.host;
        repository = spec.repository;
        tag = resolve_tag lower spec.fixed_tag source_revision;
        insecure = true;
        auth_url = r.host;
      })
unfolding resolve_image_repository
resolve_cluster_means lower parse_host get_registry spec source_revision name r c h =
    registry-resolved parse_host (start_of lower spec source_revision) r name (get_registry name)
      (ground (arith, c, h))
