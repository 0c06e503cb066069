-- ===== src/Api/ImageBuild/Names/Fixed.antt =====
-- A label is left alone by SanitizeDNSLabel.
use cluster_agent.Prelude.{
  replace_runs, ◌≡◌, refl, ap, ◌∙◌, Bool, true, false, not, List, [], ◌∷◌, map, Char, dash, is_dash,
  is_lower_alnum, All, arith, is_char_means, trim_left, trim_right, trim_left_fixed,
  trim_right_fixed,
}
use cluster_agent.Api.ImageBuild.Names.{trim_dashes, sanitize_dns_label}
use cluster_agent.Api.ImageBuild.Names.Dashes.{spaced}
use cluster_agent.Api.ImageBuild.Names.Labels.{IsLabel, IsAllowed, sanitize_dns_label-IsLabel}

replace_runs_fixed :
    (run : Bool) (s : List Char)
    → All IsAllowed s
    → spaced run s ≡ true
    → replace_runs is_lower_alnum run s ≡ s
unfolding replace_runs spaced
replace_runs_fixed run [] all h = refl
replace_runs_fixed run (c ∷ s) all h =
    ground (arith, all, h, is_char_means c dash, replace_runs_fixed (not (is_lower_alnum c)) s)

module _ (lower : Char → Char) (keeps : (c : Char) → IsAllowed c → lower c ≡ c) where
  lower_fixed : (s : List Char) → All IsAllowed s → map lower s ≡ s
  lower_fixed [] all = refl
  lower_fixed (c ∷ s) (p, all) =
      ap (λ d. d ∷ map lower s) (keeps c p) ∙ ap (λ t. c ∷ t) (lower_fixed s all)

  label_fixed : (s fallback : List Char) → IsLabel s → sanitize_dns_label lower s fallback ≡ s
  unfolding sanitize_dns_label trim_dashes
  label_fixed s fallback i =
      let e : trim_right is_dash
            (trim_left is_dash (replace_runs is_lower_alnum false (map lower s)))
          ≡ s =
        rw
          (
            lower_fixed s i.all_allowed,
            replace_runs_fixed false s i.all_allowed i.no_double_dash,
            trim_left_fixed is_dash s i.no_first_dash,
          )
          (trim_right_fixed is_dash s i.no_last_dash) in
      rw (e, i.not_empty) refl

  -- Sanitizing a text again changes nothing, where the mapping to lower case leaves the characters
  -- of a label alone and the fallback is a label.
  pub sanitize_dns_label_idempotent :
      (s fallback : List Char)
      → IsLabel fallback
      → sanitize_dns_label lower (sanitize_dns_label lower s fallback) fallback
        ≡ sanitize_dns_label lower s fallback
  sanitize_dns_label_idempotent s fallback i =
      label_fixed (sanitize_dns_label lower s fallback) fallback
        (sanitize_dns_label-IsLabel lower s fallback i)
