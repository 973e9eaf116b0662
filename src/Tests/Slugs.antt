-- ===== src/Tests/Slugs.antt =====
-- Tests and examples of the slugs.
use creel.Base.{true, false, [], ◌∷◌, ◌≡◌, refl}
use creel.Worker.Extraction.{lower, to_lower, codes}
use creel.Slug.{slugify, generate, replace_runs, trim_leading, trim_trailing}
use creel.Slug.Shape.{is_slug, words_from, slugify_lem, generate_lem}

slug_of_title : slugify (codes "  Thrombosis Study 2026!") ≡ codes "thrombosis-study-2026"
unfolding slugify lower to_lower replace_runs trim_leading trim_trailing
slug_of_title = refl

slugify_lem_example :
    (is_slug (slugify (codes "Hello World")) ≡ true)
    × (slugify (slugify (codes "Hello World")) ≡ slugify (codes "Hello World"))
slugify_lem_example = slugify_lem (codes "Hello World")

generate_lem_example :
    (words_from false (generate (0 ∷ 61 ∷ 200 ∷ 255 ∷ []) (codes "Hello World")) ≡ true)
    × (slugify (generate (0 ∷ 61 ∷ 200 ∷ 255 ∷ []) (codes "Hello World"))
        ≡ generate (0 ∷ 61 ∷ 200 ∷ 255 ∷ []) (codes "Hello World"))
generate_lem_example = generate_lem (0 ∷ 61 ∷ 200 ∷ 255 ∷ []) (codes "Hello World") refl
