-- ===== src/Api/ImageBuild/Names/Bounds.antt =====
-- What the names of builds and of their jobs promise.
-- IsDigest is what hex.EncodeToString documents, as far as it is used: lower-case digits, and enough.
use cluster_agent.Prelude.{
  ℕ, zero, suc, ◌+◌, ◌≤◌, ◌≡◌, refl, ap, ◌∙◌, String, Bool, true, false, List, [], ◌∷◌, ◌++◌, Char,
  chars, chars-of_chars, length, length-append, take, drop, dash, is_lower_alnum, is_empty, All,
  All-take, arith, sym,
}
use cluster_agent.Api.ImageBuild.{ImageBuild, ImageBuildSpec}
use cluster_agent.Api.StackResource.{BuildSpec, get_source_revision_string}
use cluster_agent.Api.ImageBuild.Names.{
  Digests, sanitize_dns_label, cut_prefix, readable_name, image_build_name, build_job_name,
  build_inputs_hash, build_inputs_hash_len, image_build_name_max_len, max_label_value_len,
  build_job_suffix,
}
use cluster_agent.Api.ImageBuild.Names.Labels.{
  IsLabel, sanitize_dns_label-IsLabel, cut_prefix-IsLabel, length-cut_prefix, join-IsLabel,
  word-IsLabel,
}

pub record IsDigest (d : List Char) : Type 0 where
  pub alnum : All (λ c. is_lower_alnum c ≡ true) d
  pub long : build_inputs_hash_len ≤ length d

length-take_of_le : (n : ℕ) (s : List Char) → n ≤ length s → length (take n s) ≡ n
length-take_of_le zero s h = refl
length-take_of_le (suc n) [] h = omega (arith, h)
length-take_of_le (suc n) (c ∷ s) h = omega (arith, h, length-take_of_le n s)

is_empty_of_length : (s : List Char) → 0 + 1 ≤ length s → is_empty s ≡ false
is_empty_of_length [] h = ground (arith, h)
is_empty_of_length (c ∷ s) h = refl

module _ (d : List Char) (i : IsDigest d) where
  length_of_hash : length (take build_inputs_hash_len d) ≡ 8
  length_of_hash = length-take_of_le 8 d i.long

  hash-IsLabel : IsLabel (take build_inputs_hash_len d)
  hash-IsLabel =
      word-IsLabel (take 8 d) (All-take (λ c. is_lower_alnum c ≡ true) 8 d i.alnum)
        (is_empty_of_length (take 8 d) (omega (arith, length_of_hash)))

app-IsLabel : IsLabel (chars "app")
app-IsLabel = word-IsLabel (chars "app") (refl, (refl, (refl, tt))) refl

rev-IsLabel : IsLabel (chars "rev")
rev-IsLabel = word-IsLabel (chars "rev") (refl, (refl, (refl, tt))) refl

module _ (lower : Char → Char) (digests : Digests) where
  -- An ImageBuild's name is a label of at most 100 characters, whatever the resource's name, the
  -- source revision and the mapping to lower case, where the digest is hexadecimal and has at least
  -- eight digits; cutting the readable part never leaves a dash at its end.
  pub image_build_name-IsLabel :
      (resource_name : String) (spec : BuildSpec)
      → IsDigest (digests.of_build_spec spec)
      → IsLabel (chars (image_build_name lower digests resource_name spec))
        × (length (chars (image_build_name lower digests resource_name spec))
            ≤ image_build_name_max_len)
  unfolding image_build_name readable_name
  image_build_name-IsLabel resource_name spec i =
      let name = readable_name lower resource_name spec in
      let label =
        join-IsLabel (sanitize_dns_label lower (chars resource_name) (chars "app"))
          (sanitize_dns_label lower (chars (get_source_revision_string spec.source_revision))
            (chars "rev"))
          (sanitize_dns_label-IsLabel lower (chars resource_name) (chars "app") app-IsLabel)
          (sanitize_dns_label-IsLabel lower
            (chars (get_source_revision_string spec.source_revision)) (chars "rev") rev-IsLabel) in
      let prefix = cut_prefix 91 name in
      let hash = take build_inputs_hash_len (digests.of_build_spec spec) in
      rw (chars-of_chars (prefix ++ (dash ∷ hash))) (
        join-IsLabel prefix hash (cut_prefix-IsLabel 90 name label)
            (hash-IsLabel (digests.of_build_spec spec) i),
        omega (
          arith,
          length-append prefix (dash ∷ hash),
          length-cut_prefix 91 name,
          length_of_hash (digests.of_build_spec spec) i,
        ),
      )

  -- A build job's name is a label of at most 63 characters, as long as the values of a label may be,
  -- where the digest is hexadecimal and has at least eight digits, and it is the same whether or not
  -- the build is cancelled.
  pub build_job_name-IsLabel :
      (w : ImageBuild)
      → IsDigest (digests.of_image_build_spec (record w.spec { cancelled = false }))
      → IsLabel (chars (build_job_name lower digests w))
        × (length (chars (build_job_name lower digests w)) ≤ max_label_value_len)
        × ((cancelled : Bool)
            → build_job_name lower digests
                (record w { spec = record w.spec { cancelled = cancelled } })
              ≡ build_job_name lower digests w)
  unfolding build_job_name
  build_job_name-IsLabel w i =
      let name = sanitize_dns_label lower (chars w.spec.resource_name) (chars "app") in
      let prefix = cut_prefix 48 name in
      let inputs : ImageBuildSpec = record w.spec { cancelled = false } in
      let hash = take build_inputs_hash_len (digests.of_image_build_spec inputs) in
      rw (chars-of_chars (prefix ++ (dash ∷ (hash ++ build_job_suffix)))) (
        join-IsLabel prefix (hash ++ build_job_suffix)
            (cut_prefix-IsLabel 47 name (
              sanitize_dns_label-IsLabel lower (chars w.spec.resource_name) (chars "app")
                app-IsLabel))
            (join-IsLabel hash (chars "build") (hash-IsLabel (digests.of_image_build_spec inputs) i)
              (word-IsLabel (chars "build") (refl, (refl, (refl, (refl, (refl, tt))))) refl)),
        omega (
          arith,
          length-append prefix (dash ∷ (hash ++ build_job_suffix)),
          length-append hash build_job_suffix,
          length-cut_prefix 48 name,
          length_of_hash (digests.of_image_build_spec inputs) i,
        ),
        λ cancelled. refl,
      )

-- Two texts that are equal have equal ends of one length.
same_ends : (a b s t : List Char) → length s ≡ length t → a ++ s ≡ b ++ t → s ≡ t
same_ends [] [] s t l h = h
same_ends [] (c ∷ b) s t l h = absurd (omega (arith, l, ap length h, length-append b t))
same_ends (c ∷ a) [] s t l h = absurd (omega (arith, l, ap length h, length-append a s))
same_ends (c ∷ a) (d ∷ b) s t l h = same_ends a b s t l (ap (drop 1) h)

-- Two ImageBuilds of one name have the same hash of their build specifications, whatever their
-- resources are called, where the digests are hexadecimal and have at least eight digits.
pub image_build_name_separates :
    (lower : Char → Char) (digests : Digests) (name name' : String) (spec spec' : BuildSpec)
    → IsDigest (digests.of_build_spec spec)
    → IsDigest (digests.of_build_spec spec')
    → image_build_name lower digests name spec ≡ image_build_name lower digests name' spec'
    → build_inputs_hash digests.of_build_spec spec ≡ build_inputs_hash digests.of_build_spec spec'
unfolding image_build_name
image_build_name_separates lower digests name name' spec spec' i j h =
    let prefix = cut_prefix 91 (readable_name lower name spec) in
    let prefix' = cut_prefix 91 (readable_name lower name' spec') in
    let hash = build_inputs_hash digests.of_build_spec spec in
    let hash' = build_inputs_hash digests.of_build_spec spec' in
    let same : prefix ++ (dash ∷ hash) ≡ prefix' ++ (dash ∷ hash') =
      sym (chars-of_chars (prefix ++ (dash ∷ hash)))
      ∙ (ap chars h ∙ chars-of_chars (prefix' ++ (dash ∷ hash'))) in
    ap (drop 1) (
      same_ends prefix prefix' (dash ∷ hash) (dash ∷ hash')
        (omega (
          arith,
          length_of_hash (digests.of_build_spec spec) i,
          length_of_hash (digests.of_build_spec spec') j,
        ))
        same)
