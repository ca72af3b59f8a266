-- ===== src/Base/Trim.antt =====
-- Trimming and searching texts: package strings.
use Prim.Native.Char.{Char, code}
use Prim.Native.String.{String, [], ◌∷◌, ◌++◌}
use mathlib.Core.Path.{sym, ◌∙◌, ◌≡◌, refl, ap}
use mathlib.Core.Logic.{◌≢◌, inl, inr}
use mathlib.Core.Bool.{Bool, true, false, ◌||◌, ◌&&◌, not}
use mathlib.Core.Option.{Option, none, some}
use native.Mathlib.Omega.{arith}
use text.Mathlib.TextEquality.{eq_iff}
use text.Mathlib.TextLemmas.{cons≢nil, cons-append, nil-append}
use text.Mathlib.Text.{◌==◌ as str_eq}
use ratelimiter_redis.Base.Text.{ascii}
use ratelimiter_redis.Base.Decimal.{char_before}
use ratelimiter_redis.Base.Tests.{leb, ◌==◌, if◌then◌else◌, Bool-cases}

-- The white space of ASCII.
abbrev pub is_space : Char → Bool
is_space c = let n = code c in (leb 9 n && leb n 13) || (n == 32)

abbrev pub is_nil : String → Bool
is_nil [] = true
is_nil (c ∷ s) = false

module _ (p : Char → Bool) where
  unfoldable pub trim_left : String → String
  trim_left [] = []
  trim_left (c ∷ s) = let rest = trim_left s in if p c then rest else c ∷ s

  -- c before what is left of a text.
  abbrev pub keep : Char → String → String
  keep c s = if is_nil s && p c then [] else c ∷ s

  unfoldable pub trim_right : String → String
  trim_right [] = []
  trim_right (c ∷ s) = keep c (trim_right s)

  left_twice : (s : String) → trim_left (trim_left s) ≡ trim_left s
  unfolding trim_left
  left_twice [] = refl
  left_twice (c ∷ s) = elim (Bool-cases (p c)) [
    | inl e ↦ rw e (left_twice s)
    | inr e ↦ rw (e, e) refl
  ]

  right_keep : (c : Char) (t : String) → trim_right t ≡ t → trim_right (keep c t) ≡ keep c t
  unfolding trim_right
  right_keep c t h = elim (Bool-cases (is_nil t && p c)) [
    | inl e ↦ rw e refl
    | inr e ↦ rw e (rw (h, e) refl)
  ]

  right_twice : (s : String) → trim_right (trim_right s) ≡ trim_right s
  unfolding trim_right
  right_twice [] = refl
  right_twice (c ∷ s) = right_keep c (trim_right s) (right_twice s)

  kept_left : (c : Char) (t : String) → p c ≡ false → trim_left (keep c t) ≡ keep c t
  unfolding trim_left
  kept_left c [] h = rw (h, h) refl
  kept_left c (d ∷ t) h = rw h refl

  left-right : (s : String) → trim_left (trim_right (trim_left s)) ≡ trim_right (trim_left s)
  unfolding trim_left trim_right
  left-right [] = refl
  left-right (c ∷ s) = elim (Bool-cases (p c)) [
    | inl e ↦ rw e (left-right s)
    | inr e ↦ rw e (kept_left c (trim_right s) e)
  ]

-- strings.TrimSpace
unfoldable pub trim_space : String → String
unfolding trim_left trim_right
trim_space s = trim_right is_space (trim_left is_space s)

-- strings.TrimRight of one character
unfoldable pub trim_right_char : Char → String → String
unfolding trim_right
trim_right_char c s = trim_right (λ d. code d == code c) s

pub trim_twice : (s : String) → trim_space (trim_space s) ≡ trim_space s
unfolding trim_space
trim_twice s =
    ap (trim_right is_space) (left-right is_space s) ∙ right_twice is_space (trim_left is_space s)

-- The part of a text before the first character that satisfies `p`: strings.SplitN(s, sep, 2)[0]
unfoldable pub before_first : (Char → Bool) → String → String
before_first p [] = []
before_first p (c ∷ s) = let rest = before_first p s in if p c then [] else c ∷ rest

-- s[:strings.LastIndex(s, sep)], if there is one
abbrev push_front : Bool → Char → Option String → Option String
push_front here c (some s) = some (c ∷ s)
push_front here c none = if here then some [] else none

unfoldable pub before_last : (Char → Bool) → String → Option String
before_last p [] = none
before_last p (c ∷ s) = push_front (p c) c (before_last p s)

-- No character satisfies `p`.
unfoldable pub has_none : (Char → Bool) → String → Bool
has_none p [] = true
has_none p (c ∷ s) = not (p c) && has_none p s

-- A separator of one character.
abbrev pub is_char : Char → Char → Bool
is_char c d = code d == code c

has_none-cons :
    (p : Char → Bool) (c : Char) (s : String)
    → has_none p (c ∷ s) ≡ true
    → (p c ≡ false) × (has_none p s ≡ true)
unfolding has_none
has_none-cons p c s h = elim (Bool-cases (p c)) [
  | inl e ↦ let no : false ≡ true = simp e at h in ground (arith, no)
  | inr e ↦ (e, simp e at h)
]

pub before_first-append :
    (p : Char → Bool) (c : Char) (a rest : String)
    → p c ≡ true
    → has_none p a ≡ true
    → before_first p (a ++ (c ∷ rest)) ≡ a
unfolding before_first
before_first-append p c [] rest h free = rw (nil-append (c ∷ rest), h) refl
before_first-append p c (d ∷ a) rest h free =
    let (other, free') = has_none-cons p d a free in
    rw (cons-append d a (c ∷ rest), other) (ap (◌∷◌ d) (before_first-append p c a rest h free'))

before_last-none : (p : Char → Bool) (s : String) → has_none p s ≡ true → before_last p s ≡ none
unfolding before_last
before_last-none p [] free = refl
before_last-none p (c ∷ s) free =
    let (other, free') = has_none-cons p c s free in rw (before_last-none p s free', other) refl

pub before_last-append :
    (p : Char → Bool) (c : Char) (a rest : String)
    → p c ≡ true
    → has_none p rest ≡ true
    → before_last p (a ++ (c ∷ rest)) ≡ some a
unfolding before_last
before_last-append p c [] rest h free =
    rw (nil-append (c ∷ rest), before_last-none p rest free, h) refl
before_last-append p c (d ∷ a) rest h free =
    rw (cons-append d a (c ∷ rest), before_last-append p c a rest h free) refl

unfoldable pub colon : Char
unfolding ascii
colon = ascii 58

unfoldable pub comma : Char
unfolding ascii
comma = ascii 44

colon_before : (s : String) → ":" ++ s ≡ colon ∷ s
unfolding colon ascii
colon_before s = sym (char_before colon s)

comma_before : (s : String) → "," ++ s ≡ comma ∷ s
unfolding comma ascii
comma_before s = sym (char_before comma s)

is_char-same : (c : Char) → is_char c c ≡ true
is_char-same c = ground arith

pub before_last-colon :
    (a rest : String)
    → has_none (is_char colon) rest ≡ true
    → before_last (is_char colon) (a ++ ":" ++ rest) ≡ some a
before_last-colon a rest h =
    ap (λ s. before_last (is_char colon) (a ++ s)) (colon_before rest)
    ∙ before_last-append (is_char colon) colon a rest (is_char-same colon) h

pub before_first-comma :
    (a rest : String)
    → has_none (is_char comma) a ≡ true
    → before_first (is_char comma) (a ++ "," ++ rest) ≡ a
before_first-comma a rest h =
    ap (λ s. before_first (is_char comma) (a ++ s)) (comma_before rest)
    ∙ before_first-append (is_char comma) comma a rest (is_char-same comma) h

-- A test for the empty text.
pub not_nil : (t : String) → t ≢ "" → str_eq t "" ≡ false
not_nil t h = elim (Bool-cases (str_eq t "")) [
  | inl e ↦ elim (h ((eq_iff t "").0 e)) [ ]
  | inr e ↦ e
]

pub comma_not_nil : (s : String) → "," ++ s ≢ ""
comma_not_nil s e = cons≢nil (sym (comma_before s) ∙ e)

pub differs_from_nil : (s : String) → str_eq s "" ≡ false → s ≢ ""
differs_from_nil s h e =
    let absurd : false ≡ true = sym h ∙ (eq_iff s "").1 e in ground (arith, absurd)
