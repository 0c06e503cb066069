-- ===== src/Api/ImageBuild/Names/Labels.antt =====
-- The names of builds and of their jobs are DNS labels within the bounds that the source gives.
use cluster_agent.Prelude.{
  replace_runs, ℕ, suc, ◌≤◌, ◌≡◌, refl, Bool, true, false, not, List, [], ◌∷◌, ◌++◌, map, Char,
  length, take, ltb, dash, is_dash, is_lower_alnum, is_empty, trim_left, trim_dash_suffix,
  if◌then◌else◌, All, first_is, last_is, arith, first_is-trim_left, first_is-trim_right,
  last_is-trim_right, All-trim_left, All-trim_right, Bool-cases, inl, inr, length-take, All-take,
  All-append, ◌∙◌,
}
use cluster_agent.Api.ImageBuild.Names.Dashes.{
  spaced, spaced-replace_runs, spaced-trim_left, spaced-trim_right, spaced-take,
  spaced-trim_dash_suffix, last_is-trim_dash_suffix, first_is-take, first_is-trim_dash_suffix,
  is_empty-trim_dash_suffix, spaced-join, last_is-append, is_empty-append, is_empty-take,
  first_is-append,
}
use cluster_agent.Api.ImageBuild.Names.{trim_dashes, sanitize_dns_label, cut_prefix}

abbrev pub is_label_char : Char → Bool
is_label_char c = if is_lower_alnum c then true else is_dash c

abbrev pub IsAllowed : Char → Type 0
IsAllowed c = is_label_char c ≡ true

-- A DNS label, its length aside: lower-case letters, digits and dashes, not empty, no dash at an
-- end; and no two dashes beside each other.
pub record IsLabel (s : List Char) : Type 0 where
  pub all_allowed : All IsAllowed s
  pub not_empty : is_empty s ≡ false
  pub no_first_dash : first_is is_dash s ≡ false
  pub no_last_dash : last_is is_dash s ≡ false
  pub no_double_dash : spaced false s ≡ true

replace_runs-IsAllowed :
    (run : Bool) (s : List Char) → All IsAllowed (replace_runs is_lower_alnum run s)
unfolding replace_runs
replace_runs-IsAllowed run [] = tt
replace_runs-IsAllowed run (c ∷ s) =
    ground (arith, replace_runs-IsAllowed (not (is_lower_alnum c)) s)

-- What is left of a text that is not empty after the replacement and the trimming.
trim_dashes-IsLabel :
    (s : List Char)
    → All IsAllowed s
    → spaced false s ≡ true
    → is_empty (trim_dashes s) ≡ false
    → IsLabel (trim_dashes s)
unfolding trim_dashes
trim_dashes-IsLabel s all h e =
    let left = trim_left is_dash s in
    record {
      all_allowed = All-trim_right is_dash IsAllowed left (All-trim_left is_dash IsAllowed s all);
      not_empty = e;
      no_first_dash = first_is-trim_right is_dash left (first_is-trim_left is_dash s);
      no_last_dash = last_is-trim_right is_dash left;
      no_double_dash = spaced-trim_right false left (spaced-trim_left s h);
    }

-- Whatever the text and the mapping to lower case, the sanitized text is a label where the fallback
-- is one.
pub sanitize_dns_label-IsLabel :
    (lower : Char → Char) (s fallback : List Char)
    → IsLabel fallback
    → IsLabel (sanitize_dns_label lower s fallback)
unfolding sanitize_dns_label
sanitize_dns_label-IsLabel lower s fallback i =
    let t = replace_runs is_lower_alnum false (map lower s) in
    elim (Bool-cases (is_empty (trim_dashes t))) [
      | inl e ↦ rw e i
      | inr e ↦ rw e (
          trim_dashes-IsLabel t (replace_runs-IsAllowed false (map lower s))
            (spaced-replace_runs false (map lower s)) e)
    ]

All-trim_dash_suffix : (s : List Char) → All IsAllowed s → All IsAllowed (trim_dash_suffix s)
unfolding trim_dash_suffix
All-trim_dash_suffix [] h = tt
All-trim_dash_suffix (c ∷ s) h = ground (arith, h, All-trim_dash_suffix s)

-- A cut label is a label.
pub cut_prefix-IsLabel : (n : ℕ) (s : List Char) → IsLabel s → IsLabel (cut_prefix (suc n) s)
unfolding cut_prefix
cut_prefix-IsLabel n s i = elim (Bool-cases (ltb (suc n) (length s))) [
  | inr e ↦ rw e i
  | inl e ↦ rw e (
      let t = take (suc n) s in
      let f = first_is-take (suc n) s i.no_first_dash in
      let sp = spaced-take (suc n) false s i.no_double_dash in
      record {
        all_allowed = All-trim_dash_suffix t (All-take IsAllowed (suc n) s i.all_allowed);
        not_empty = is_empty-trim_dash_suffix t (is_empty-take n s i.not_empty) f;
        no_first_dash = first_is-trim_dash_suffix t f;
        no_last_dash = last_is-trim_dash_suffix false t sp;
        no_double_dash = spaced-trim_dash_suffix false t sp;
      })
]

length-trim_dash_suffix : (s : List Char) → length (trim_dash_suffix s) ≤ length s
unfolding trim_dash_suffix
length-trim_dash_suffix [] = omega arith
length-trim_dash_suffix (c ∷ s) = ground (arith, length-trim_dash_suffix s)

pub length-cut_prefix : (n : ℕ) (s : List Char) → length (cut_prefix n s) ≤ n
unfolding cut_prefix
length-cut_prefix n s = ground (arith, length-trim_dash_suffix (take n s), length-take n s)

-- Two labels with a dash between them.
pub join-IsLabel : (s t : List Char) → IsLabel s → IsLabel t → IsLabel (s ++ (dash ∷ t))
unfolding last_is
join-IsLabel s t i j = record {
  all_allowed = All-append IsAllowed s (dash ∷ t) i.all_allowed (refl, j.all_allowed);
  not_empty = is_empty-append s (dash ∷ t) refl;
  no_first_dash = first_is-append s (dash ∷ t) i.not_empty i.no_first_dash;
  no_last_dash =
      last_is-append s (dash ∷ t) refl
      ∙ (last_is-append (dash ∷ []) t j.not_empty ∙ j.no_last_dash);
  no_double_dash =
      spaced-join false s t i.no_double_dash i.not_empty i.no_last_dash j.no_double_dash
        j.no_first_dash;
}

-- A text of letters and digits that is not empty.
pub word-IsLabel :
    (s : List Char) → All (λ c. is_lower_alnum c ≡ true) s → is_empty s ≡ false → IsLabel s
unfolding spaced last_is
word-IsLabel [] h e = ground (arith, e)
word-IsLabel (c ∷ []) h e = record {
  all_allowed = ground (arith, h);
  not_empty = refl;
  no_first_dash = ground (arith, h);
  no_last_dash = ground (arith, h);
  no_double_dash = ground (arith, h);
}
word-IsLabel (c ∷ d ∷ s) h e =
    let i = word-IsLabel (d ∷ s) h.1 refl in
    record {
      all_allowed = (ground (arith, h), i.all_allowed);
      not_empty = refl;
      no_first_dash = ground (arith, h);
      no_last_dash = i.no_last_dash;
      no_double_dash = ground (arith, h, i.no_double_dash);
    }
