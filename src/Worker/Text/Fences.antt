-- ===== src/Worker/Text/Fences.antt =====
-- Fenced answers of an LLM (internal/worker/json_extract.go).
use creel.Base.{
  ℕ, Bool, true, false, List, [], ◌∷◌, ◌++◌, some, ◌≡◌, refl, sym, ap, ◌∙◌, arith, eqb,
  if◌then◌else◌, ◌&&◌,
}
use mathlib.Core.List.{reverse, reverse-append, reverse-reverse, append_assoc}
use creel.Worker.Text.{
  leading_width, trailing_width, skip_spaces, trim_space, fence, line_feed, after_prefix,
  after_line, before_last_fence, extract_json, is_ascii_space,
}

-- No line feed stands in a text.
unfoldable pub one_line : List ℕ → Bool
one_line [] = true
one_line (b ∷ s) = if eqb b line_feed then false else one_line s

before_last_fence-append : (s : List ℕ) → before_last_fence (s ++ fence) ≡ some s
unfolding before_last_fence after_prefix
before_last_fence-append [] = refl
before_last_fence-append (b ∷ s) = rw (before_last_fence-append s)

after_line-append : (l s : List ℕ) → one_line l ≡ true → after_line (l ++ line_feed ∷ s) ≡ some s
unfolding after_line one_line
after_line-append [] s h = refl
after_line-append (b ∷ l) s h = ground (arith, after_line-append l s)

-- Spaces, tabs, line feeds, carriage returns and the other white space of one byte.
unfoldable pub are_spaces : List ℕ → Bool
are_spaces [] = true
are_spaces (b ∷ s) = is_ascii_space b && are_spaces s

leading_width-space : (b : ℕ) (s : List ℕ) → is_ascii_space b ≡ true → leading_width (b ∷ s) ≡ 1
unfolding leading_width
leading_width-space b [] h = rw h refl
leading_width-space b (c ∷ []) h = rw h refl
leading_width-space b (c ∷ d ∷ s) h = rw h refl

trailing_width-space : (b : ℕ) (s : List ℕ) → is_ascii_space b ≡ true → trailing_width (b ∷ s) ≡ 1
unfolding trailing_width
trailing_width-space b [] h = rw h refl
trailing_width-space b (c ∷ []) h = rw h refl
trailing_width-space b (c ∷ d ∷ s) h = rw h refl

skip_before :
    (before s : List ℕ)
    → are_spaces before ≡ true
    → skip_spaces leading_width 0 (before ++ s) ≡ skip_spaces leading_width 0 s
unfolding are_spaces skip_spaces
skip_before [] s h = refl
skip_before (b ∷ before) s h =
    rw (leading_width-space b (before ++ s) (ground arith)) (skip_before before s (ground arith))

reverse-cons : (b : ℕ) (s t : List ℕ) → reverse (b ∷ s) ++ t ≡ reverse s ++ b ∷ t
reverse-cons b s t =
    ap (λ u. u ++ t) (reverse-append (b ∷ []) s) ∙ append_assoc (reverse s) (b ∷ []) t

skip_after :
    (after s : List ℕ)
    → are_spaces after ≡ true
    → skip_spaces trailing_width 0 (reverse after ++ s) ≡ skip_spaces trailing_width 0 s
unfolding are_spaces skip_spaces
skip_after [] s h = refl
skip_after (b ∷ after) s h =
    ap (skip_spaces trailing_width 0) (reverse-cons b after s)
    ∙ skip_after after (b ∷ s) (ground arith)
    ∙ rw (trailing_width-space b s (ground arith)) refl

-- A text that begins and ends with a mark has no white space around it.
skip_leading : (s : List ℕ) → skip_spaces leading_width 0 (fence ++ s) ≡ fence ++ s
unfolding skip_spaces leading_width
skip_leading s = refl

skip_trailing : (s : List ℕ) → skip_spaces trailing_width 0 (fence ++ s) ≡ fence ++ s
unfolding skip_spaces trailing_width
skip_trailing s = refl

-- A text between two fences.
abbrev pub closed : List ℕ → List ℕ
closed s = fence ++ (s ++ fence)

reverse-closed : (s : List ℕ) → reverse (closed s) ≡ fence ++ reverse (fence ++ s)
reverse-closed s = reverse-append (fence ++ s) fence

trim_space-closed :
    (before after s : List ℕ)
    → are_spaces before ≡ true
    → are_spaces after ≡ true
    → trim_space (before ++ (closed s ++ after)) ≡ closed s
unfolding trim_space
trim_space-closed before after s h k =
    let front : skip_spaces leading_width 0 (before ++ (closed s ++ after)) ≡ closed s ++ after =
      skip_before before (closed s ++ after) h ∙ skip_leading ((s ++ fence) ++ after) in
    let turned : reverse (closed s ++ after) ≡ reverse after ++ (fence ++ reverse (fence ++ s)) =
      reverse-append (closed s) after ∙ ap (λ t. reverse after ++ t) (reverse-closed s) in
    let back : skip_spaces trailing_width 0 (reverse (closed s ++ after))
        ≡ fence ++ reverse (fence ++ s) =
      ap (skip_spaces trailing_width 0) turned
      ∙ skip_after after (fence ++ reverse (fence ++ s)) k
      ∙ skip_trailing (reverse (fence ++ s)) in
    ap (λ t. reverse (skip_spaces trailing_width 0 (reverse t))) front
    ∙ ap reverse (back ∙ sym (reverse-closed s))
    ∙ reverse-reverse (closed s)

-- An answer that, but for white space around it, begins with a fence and ends with a fence: with
-- whichever language on the first line, `extractJSON` gives what stands between that line and the last
-- fence, without the white space around it. The body itself may hold fences; the white space around
-- the answer is of one byte each.
pub extract_json_fenced :
    (before language body after : List ℕ)
    → are_spaces before ≡ true
    → one_line language ≡ true
    → are_spaces after ≡ true
    → extract_json (before ++ (closed (language ++ line_feed ∷ body) ++ after)) ≡ trim_space body
unfolding extract_json after_prefix one_line
extract_json_fenced before language body after h l k =
    let same : closed (language ++ line_feed ∷ body)
        ≡ fence ++ (language ++ line_feed ∷ (body ++ fence)) =
      ap (λ t. fence ++ t) (append_assoc language (line_feed ∷ body) fence) in
    let trimmed = trim_space-closed before after (language ++ line_feed ∷ body) h k ∙ same in
    rw trimmed (
      rw (after_line-append (fence ++ language) (body ++ fence) l)
        (rw (before_last_fence-append body) refl))
