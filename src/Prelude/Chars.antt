-- ===== src/Prelude/Chars.antt =====
-- Texts as lists of characters, and the trimming and cutting of package strings on them.
use Prim.Native.Nat.{ℕ, zero, suc, ◌≤◌}
use Prim.Native.Char.{code}
use Prim.Native.String.{String}
pub use Prim.Native.Char.{Char}
use text.Mathlib.TextEquality.{Char-path}
use mathlib.Core.Path.{◌≡◌, refl, ap}
use mathlib.Core.Bool.{Bool, true, false, not, ◌&&◌}
use mathlib.Core.List.{List, [], ◌∷◌, ◌++◌}
use native.Mathlib.Omega.{arith}
use cluster_agent.Prelude.Tests.{◌==◌, leb, if◌then◌else◌}
use cluster_agent.Prelude.Lists.{length, is_empty, take, All}

abbrev pub chars : String → List Char
chars String.[] = []
chars (String.◌∷◌ c s) = c ∷ chars s

abbrev pub of_chars : List Char → String
of_chars [] = String.[]
of_chars (c ∷ s) = String.◌∷◌ c (of_chars s)

pub chars-of_chars : (s : List Char) → chars (of_chars s) ≡ s
chars-of_chars [] = refl
chars-of_chars (c ∷ s) = ap (λ t. c ∷ t) (chars-of_chars s)

pub of_chars-chars : (s : String) → of_chars (chars s) ≡ s
of_chars-chars String.[] = refl
of_chars-chars (String.◌∷◌ c s) = ap (λ t. String.◌∷◌ c t) (of_chars-chars s)

-- `==` on characters
abbrev pub is_char : Char → Char → Bool
is_char c d = code c == code d

pub is_char_means : (c d : Char) → is_char c d ≡ true → c ≡ d
is_char_means c d h = Char-path c d (ground (arith, h))

abbrev pub dash : Char
dash = "-"

abbrev pub is_dash : Char → Bool
is_dash c = is_char c dash

-- `'a' <= c && c <= 'z' || '0' <= c && c <= '9'`
abbrev pub is_lower_alnum : Char → Bool
is_lower_alnum c =
    if leb b'a' (code c) && leb (code c) b'z' then true else leb b'0' (code c) && leb (code c) b'9'

-- ReplaceAllString(s, "-") with the expression of a run of characters that are not in a class: the
-- flag says that a character of the same run was replaced already.
unfoldable pub replace_runs : (Char → Bool) → Bool → List Char → List Char
replace_runs in_class run [] = []
replace_runs in_class run (c ∷ s) =
    let rest = replace_runs in_class (not (in_class c)) s in
    if in_class c then c ∷ rest else if run then rest else dash ∷ rest

module _ (p : Char → Bool) where
  -- strings.TrimLeft with the characters for which `p` holds
  unfoldable pub trim_left : List Char → List Char
  trim_left [] = []
  trim_left (c ∷ s) = let rest = trim_left s in if p c then rest else c ∷ s

  -- strings.TrimRight
  unfoldable pub trim_right : List Char → List Char
  trim_right [] = []
  trim_right (c ∷ s) = let rest = trim_right s in if is_empty rest && p c then [] else c ∷ rest

  abbrev pub first_is : List Char → Bool
  first_is [] = false
  first_is (c ∷ s) = p c

  unfoldable pub last_is : List Char → Bool
  last_is [] = false
  last_is (c ∷ s) = let rest = last_is s in if is_empty s then p c else rest

  pub first_is-trim_left : (s : List Char) → first_is (trim_left s) ≡ false
  unfolding trim_left
  first_is-trim_left [] = refl
  first_is-trim_left (c ∷ s) = ground (arith, first_is-trim_left s)

  pub first_is-trim_right : (s : List Char) → first_is s ≡ false → first_is (trim_right s) ≡ false
  unfolding trim_right
  first_is-trim_right [] h = refl
  first_is-trim_right (c ∷ s) h = ground (arith, h)

  pub last_is-trim_right : (s : List Char) → last_is (trim_right s) ≡ false
  unfolding trim_right last_is
  last_is-trim_right [] = refl
  last_is-trim_right (c ∷ s) = ground (arith, last_is-trim_right s)

  pub trim_left_fixed : (s : List Char) → first_is s ≡ false → trim_left s ≡ s
  unfolding trim_left
  trim_left_fixed [] h = refl
  trim_left_fixed (c ∷ s) h = ground (arith, h)

  pub trim_right_fixed : (s : List Char) → last_is s ≡ false → trim_right s ≡ s
  unfolding trim_right last_is
  trim_right_fixed [] h = refl
  trim_right_fixed (c ∷ []) h = ground (arith, h)
  trim_right_fixed (c ∷ d ∷ s) h = ground (arith, h, trim_right_fixed (d ∷ s))

  -- Trimming keeps what holds of every character.
  pub All-trim_left : (P : Char → Type 0) (s : List Char) → All P s → All P (trim_left s)
  unfolding trim_left
  All-trim_left P [] h = tt
  All-trim_left P (c ∷ s) h = ground (arith, h, All-trim_left P s)

  pub All-trim_right : (P : Char → Type 0) (s : List Char) → All P s → All P (trim_right s)
  unfolding trim_right
  All-trim_right P [] h = tt
  All-trim_right P (c ∷ s) h = ground (arith, h, All-trim_right P s)

-- strings.TrimSuffix(s, "-")
unfoldable pub trim_dash_suffix : List Char → List Char
trim_dash_suffix [] = []
trim_dash_suffix (c ∷ s) =
    let rest = trim_dash_suffix s in if is_empty s && is_dash c then [] else c ∷ rest

pub length-take : {A : Type 0} (n : ℕ) (s : List A) → length (take n s) ≤ n
length-take zero s = omega arith
length-take (suc n) [] = omega arith
length-take (suc n) (c ∷ s) = omega (arith, length-take n s)

pub All-take : {A : Type 0} (P : A → Type 0) (n : ℕ) (s : List A) → All P s → All P (take n s)
All-take P zero s h = tt
All-take P (suc n) [] h = tt
All-take P (suc n) (c ∷ s) (p, h) = (p, All-take P n s h)

pub All-append :
    {A : Type 0} (P : A → Type 0) (xs ys : List A) → All P xs → All P ys → All P (xs ++ ys)
All-append P [] ys _ h = h
All-append P (x ∷ xs) ys (p, h) k = (p, All-append P xs ys h k)
