-- ===== src/Worker/Text.antt =====
-- The `strings` functions that internal/worker applies to texts, on their bytes, and
-- internal/worker/json_extract.go.
pub mod Fences
use creel.Base.{
  ℕ, zero, suc, ◌-◌, Bool, true, false, List, [], ◌∷◌, Option, none, some, ◌&&◌, ◌||◌, eqb, leb,
  if◌then◌else◌,
}
use mathlib.Core.List.{reverse}

-- unicode.IsSpace, on the UTF-8 forms of the white space.
abbrev pub is_ascii_space : ℕ → Bool
is_ascii_space b = leb 9 b && leb b 13 || eqb b 32

abbrev is_space2 : ℕ → ℕ → Bool
is_space2 a b = eqb a 0xc2 && (eqb b 0x85 || eqb b 0xa0)

abbrev is_space3 : ℕ → ℕ → ℕ → Bool
is_space3 a b c =
    eqb a 0xe1 && (eqb b 0x9a && eqb c 0x80)
    || (eqb a 0xe2
          && eqb b 0x80
          && (leb 0x80 c && leb c 0x8a || (eqb c 0xa8 || (eqb c 0xa9 || eqb c 0xaf)))
        || (eqb a 0xe2 && (eqb b 0x81 && eqb c 0x9f) || eqb a 0xe3 && (eqb b 0x80 && eqb c 0x80)))

-- How many bytes the white space takes with which a text begins; 0 if there is none.
unfoldable pub leading_width : List ℕ → ℕ
leading_width [] = 0
leading_width (a ∷ []) = if is_ascii_space a then 1 else 0
leading_width (a ∷ b ∷ []) = if is_ascii_space a then 1 else if is_space2 a b then 2 else 0
leading_width (a ∷ b ∷ c ∷ _) =
    if is_ascii_space a then 1 else if is_space2 a b then 2 else if is_space3 a b c then 3 else 0

-- The same of the end of a text, whose bytes stand in reverse.
unfoldable pub trailing_width : List ℕ → ℕ
trailing_width [] = 0
trailing_width (a ∷ []) = if is_ascii_space a then 1 else 0
trailing_width (a ∷ b ∷ []) = if is_ascii_space a then 1 else if is_space2 b a then 2 else 0
trailing_width (a ∷ b ∷ c ∷ _) =
    if is_ascii_space a then 1 else if is_space2 b a then 2 else if is_space3 c b a then 3 else 0

-- Drops white space as long as there is some; `n` bytes of the present one are left to drop.
unfoldable pub skip_spaces : (List ℕ → ℕ) → ℕ → List ℕ → List ℕ
skip_spaces width n [] = []
skip_spaces width (suc n) (b ∷ bs) = skip_spaces width n bs
skip_spaces width zero (b ∷ bs) =
    let w = width (b ∷ bs) in
    let rest = skip_spaces width (w - 1) bs in if eqb w 0 then b ∷ bs else rest

-- `strings.TrimSpace`.
unfoldable pub trim_space : List ℕ → List ℕ
unfolding skip_spaces leading_width trailing_width
trim_space s = reverse (skip_spaces trailing_width 0 (reverse (skip_spaces leading_width 0 s)))

-- The bytes of "```", and of a line feed.
abbrev pub fence : List ℕ
fence = b'`' ∷ b'`' ∷ b'`' ∷ []

abbrev pub line_feed : ℕ
line_feed = 10

-- What follows a prefix, if the text has it.
unfoldable pub after_prefix : List ℕ → List ℕ → Option (List ℕ)
after_prefix [] s = some s
after_prefix (p ∷ ps) [] = none
after_prefix (p ∷ ps) (b ∷ s) = let rest = after_prefix ps s in if eqb p b then rest else none

-- `s[strings.Index(s, "\n")+1:]`, if there is a line feed.
unfoldable pub after_line : List ℕ → Option (List ℕ)
after_line [] = none
after_line (b ∷ s) = let rest = after_line s in if eqb b line_feed then some s else rest

abbrev has_prefix : List ℕ → List ℕ → Bool
has_prefix p s = elim (after_prefix p s) [ none ↦ false | some _ ↦ true ]

abbrev cons_some : ℕ → Option (List ℕ) → Option (List ℕ)
cons_some b none = none
cons_some b (some s) = some (b ∷ s)

-- `s[:strings.LastIndex(s, "```")]`, if there is a fence.
unfoldable pub before_last_fence : List ℕ → Option (List ℕ)
unfolding after_prefix
before_last_fence [] = none
before_last_fence (b ∷ s) = elim (before_last_fence s) [
  | some r ↦ some (b ∷ r)
  | none ↦ if has_prefix fence (b ∷ s) then some [] else none
]

abbrev pub or_self : Option (List ℕ) → List ℕ → List ℕ
or_self none s = s
or_self (some r) s = r

abbrev strip_closing : List ℕ → List ℕ
strip_closing s = or_self (before_last_fence s) s

abbrev strip_opening : List ℕ → List ℕ
strip_opening s = or_self (after_line s) s

abbrev unfence : List ℕ → List ℕ
unfence s = if has_prefix fence s then trim_space (strip_closing (strip_opening s)) else s

-- extractJSON.
unfoldable pub extract_json : List ℕ → List ℕ
unfolding trim_space before_last_fence after_prefix after_line
extract_json s = unfence (trim_space s)

-- `strings.TrimSuffix(s, "```")`.
unfoldable pub trim_fence_suffix : List ℕ → List ℕ
unfolding after_prefix
trim_fence_suffix s = elim (after_prefix fence (reverse s)) [ none ↦ s | some r ↦ reverse r ]

-- The fence stripping of `splitSemantic`: the line feed is looked for after the three marks.
abbrev strip_marks : Option (List ℕ) → List ℕ → List ℕ
strip_marks none s = s
strip_marks (some tail) s = trim_space (trim_fence_suffix (or_self (after_line tail) s))

unfoldable pub strip_fences : List ℕ → List ℕ
unfolding trim_space after_prefix after_line trim_fence_suffix
strip_fences s = strip_marks (after_prefix fence (trim_space s)) (trim_space s)
