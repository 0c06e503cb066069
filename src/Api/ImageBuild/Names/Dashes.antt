-- ===== src/Api/ImageBuild/Names/Dashes.antt =====
-- Dashes in the names of builds: no two beside each other, and none at an end.
use cluster_agent.Prelude.{
  replace_runs, ℕ, zero, suc, ◌≡◌, refl, Bool, true, false, not, List, [], ◌∷◌, ◌++◌, Char, take,
  dash, is_dash, is_lower_alnum, is_empty, trim_left, trim_right, trim_dash_suffix, first_is,
  last_is, ◌&&◌, arith,
}

-- No dash follows a dash; the flag says that a dash stands before.
unfoldable pub spaced : Bool → List Char → Bool
spaced run [] = true
spaced run (c ∷ s) = let rest = spaced (is_dash c) s in not (run && is_dash c) && rest

spaced_weaken : (run : Bool) (s : List Char) → spaced run s ≡ true → spaced false s ≡ true
unfolding spaced
spaced_weaken run [] h = refl
spaced_weaken run (c ∷ s) h = ground (arith, h)

pub spaced-replace_runs :
    (run : Bool) (s : List Char) → spaced run (replace_runs is_lower_alnum run s) ≡ true
unfolding spaced replace_runs
spaced-replace_runs run [] = refl
spaced-replace_runs run (c ∷ s) = ground (arith, spaced-replace_runs (not (is_lower_alnum c)) s)

pub spaced-trim_left :
    (s : List Char) → spaced false s ≡ true → spaced false (trim_left is_dash s) ≡ true
unfolding spaced trim_left
spaced-trim_left [] h = refl
spaced-trim_left (c ∷ s) h = ground (arith, h, spaced_weaken (is_dash c) s, spaced-trim_left s)

pub spaced-trim_right :
    (run : Bool) (s : List Char) → spaced run s ≡ true → spaced run (trim_right is_dash s) ≡ true
unfolding spaced trim_right
spaced-trim_right run [] h = refl
spaced-trim_right run (c ∷ s) h = ground (arith, h, spaced-trim_right (is_dash c) s)

pub spaced-take :
    (n : ℕ) (run : Bool) (s : List Char) → spaced run s ≡ true → spaced run (take n s) ≡ true
unfolding spaced
spaced-take zero run s h = refl
spaced-take (suc n) run [] h = refl
spaced-take (suc n) run (c ∷ s) h = ground (arith, h, spaced-take n (is_dash c) s)

pub spaced-trim_dash_suffix :
    (run : Bool) (s : List Char) → spaced run s ≡ true → spaced run (trim_dash_suffix s) ≡ true
unfolding spaced trim_dash_suffix
spaced-trim_dash_suffix run [] h = refl
spaced-trim_dash_suffix run (c ∷ s) h = ground (arith, h, spaced-trim_dash_suffix (is_dash c) s)

-- One dash is all that there can be at the end.
pub last_is-trim_dash_suffix :
    (run : Bool) (s : List Char)
    → spaced run s ≡ true
    → last_is is_dash (trim_dash_suffix s) ≡ false
unfolding spaced trim_dash_suffix last_is
last_is-trim_dash_suffix run [] h = refl
last_is-trim_dash_suffix run (c ∷ []) h = ground (arith, h)
last_is-trim_dash_suffix run (c ∷ d ∷ s) h =
    ground (arith, h, last_is-trim_dash_suffix (is_dash c) (d ∷ s))

pub first_is-take :
    (n : ℕ) (s : List Char) → first_is is_dash s ≡ false → first_is is_dash (take n s) ≡ false
first_is-take zero s h = refl
first_is-take (suc n) [] h = refl
first_is-take (suc n) (c ∷ s) h = h

pub first_is-trim_dash_suffix :
    (s : List Char) → first_is is_dash s ≡ false → first_is is_dash (trim_dash_suffix s) ≡ false
unfolding trim_dash_suffix
first_is-trim_dash_suffix [] h = refl
first_is-trim_dash_suffix (c ∷ s) h = ground (arith, h)

pub is_empty-trim_dash_suffix :
    (s : List Char)
    → is_empty s ≡ false
    → first_is is_dash s ≡ false
    → is_empty (trim_dash_suffix s) ≡ false
unfolding trim_dash_suffix
is_empty-trim_dash_suffix [] e h = e
is_empty-trim_dash_suffix (c ∷ s) e h = ground (arith, h)

-- Two texts without a dash at the place where they meet, and a dash between them.
pub spaced-join :
    (run : Bool) (s t : List Char)
    → spaced run s ≡ true
    → is_empty s ≡ false
    → last_is is_dash s ≡ false
    → spaced false t ≡ true
    → first_is is_dash t ≡ false
    → spaced run (s ++ (dash ∷ t)) ≡ true
unfolding spaced last_is
spaced-join run [] t h e l k f = ground (arith, e)
spaced-join run (c ∷ []) [] h e l k f = ground (arith, h, l)
spaced-join run (c ∷ []) (d ∷ t) h e l k f = ground (arith, h, l, k, f)
spaced-join run (c ∷ d ∷ s) t h e l k f =
    ground (arith, h, spaced-join (is_dash c) (d ∷ s) t (ground (arith, h)) refl l k f)

pub is_empty-append : (s t : List Char) → is_empty t ≡ false → is_empty (s ++ t) ≡ false
is_empty-append [] t e = e
is_empty-append (c ∷ s) t e = refl

pub last_is-append :
    (s t : List Char) → is_empty t ≡ false → last_is is_dash (s ++ t) ≡ last_is is_dash t
unfolding last_is
last_is-append [] t e = refl
last_is-append (c ∷ s) t e = rw (is_empty-append s t e) (last_is-append s t e)

pub first_is-append :
    (s t : List Char)
    → is_empty s ≡ false
    → first_is is_dash s ≡ false
    → first_is is_dash (s ++ t) ≡ false
first_is-append [] t e h = ground (arith, e)
first_is-append (c ∷ s) t e h = h

pub is_empty-take : (n : ℕ) (s : List Char) → is_empty s ≡ false → is_empty (take (suc n) s) ≡ false
is_empty-take n [] e = e
is_empty-take n (c ∷ s) e = refl
