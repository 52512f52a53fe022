-- ===== src/Slug/Tests.antt =====
-- The slugs of titles, with the lower case and the letters of ASCII.
use forgepost.Prelude.{◌≡◌, refl, true, false, ◌⊎◌, any}
use forgepost.Text.{Text, codes}
use forgepost.Text.Ops.{to_ascii_lowercase, is_ascii_alphanumeric}
use forgepost.Slug.{slugify, untitled}
use forgepost.Slug.Laws.{IsSlugOf, slugify-IsSlugOf}

abbrev title : Text
title = codes " Hello, World -- 2!"

slugify_run : slugify to_ascii_lowercase is_ascii_alphanumeric title ≡ codes "hello-world-2"
unfolding slugify to_ascii_lowercase
slugify_run = refl

slugify-untitled_run : slugify to_ascii_lowercase is_ascii_alphanumeric (codes "?!") ≡ untitled
unfolding slugify to_ascii_lowercase
slugify-untitled_run = refl

-- A title of letters only can have the slug of a title without any.
slugify-untitled_letters :
    slugify to_ascii_lowercase is_ascii_alphanumeric (codes "Untitled") ≡ untitled
unfolding slugify to_ascii_lowercase
slugify-untitled_letters = refl

slugify-IsSlugOf_example :
    let slug = slugify to_ascii_lowercase is_ascii_alphanumeric title in
    let lower = to_ascii_lowercase title in
    ((any is_ascii_alphanumeric lower ≡ true)
      × IsSlugOf to_ascii_lowercase is_ascii_alphanumeric refl lower slug)
    ⊎ ((any is_ascii_alphanumeric lower ≡ false) × (slug ≡ untitled))
slugify-IsSlugOf_example = slugify-IsSlugOf to_ascii_lowercase is_ascii_alphanumeric refl title
