-- ===== src/Slug.antt =====
-- internal/slug/slug.go, over code points: names for URLs. The bytes of `rand.Read` are an argument.
pub mod Shape
use creel.Base.{
  ℕ, ◌+◌, ◌-◌, Bool, true, false, List, [], ◌∷◌, ◌++◌, map, ◌&&◌, ◌||◌, not, leb, ltb, eqb,
  is_empty, if◌then◌else◌,
}
use Prim.Native.Nat.{◌%◌}
use creel.Worker.Extraction.{to_lower, lower}

abbrev pub hyphen : ℕ
hyphen = b'-'

-- [a-z0-9].
abbrev pub is_alphanumeric : ℕ → Bool
is_alphanumeric c = leb b'a' c && leb c b'z' || leb b'0' c && leb c b'9'

-- nonAlphanumeric.ReplaceAllString(s, "-"): each longest run becomes one hyphen; the flag is whether
-- the last code point was in a run.
unfoldable pub replace_runs : Bool → List ℕ → List ℕ
replace_runs in_run [] = []
replace_runs in_run (c ∷ s) =
    let word = replace_runs false s in
    let run = replace_runs true s in
    if is_alphanumeric c then c ∷ word else if in_run then run else hyphen ∷ run

-- leadingTrailing.ReplaceAllString(s, ""): `^-+` and `-+$`.
unfoldable pub trim_leading : List ℕ → List ℕ
trim_leading [] = []
trim_leading (c ∷ s) = let rest = trim_leading s in if eqb c hyphen then rest else c ∷ s

unfoldable pub trim_trailing : List ℕ → List ℕ
trim_trailing [] = []
trim_trailing (c ∷ s) =
    let rest = trim_trailing s in if is_empty rest && eqb c hyphen then [] else c ∷ rest

unfoldable pub slugify : List ℕ → List ℕ
unfolding lower replace_runs trim_leading trim_trailing
slugify name = trim_trailing (trim_leading (replace_runs false (lower name)))

-- charset[b % len(charset)].
abbrev pub charset_at : ℕ → ℕ
charset_at n = if ltb n 26 then b'a' + n else b'0' + (n - 26)

unfoldable pub random_suffix : List ℕ → List ℕ
random_suffix bytes = map (λ b. charset_at (b % 36)) bytes

-- Generate; the source draws four bytes.
unfoldable pub generate : List ℕ → List ℕ → List ℕ
unfolding slugify random_suffix
generate bytes name =
    let base = slugify name in
    let suffix = random_suffix bytes in if is_empty base then suffix else base ++ hyphen ∷ suffix
