-- ===== src/Tests/Names.antt =====
-- Examples for app/loras/civitai_url.py.
use local_image_generator_se.Common.{◌≡◌, refl}
use local_image_generator_se.Common.Text.{codes, ends_with, starts_with}
use local_image_generator_se.Slug.{
  sanitize_slug, clean, collapse, lstrip_separators, rstrip_separators, IsSlug,
  sanitize_slug-IsSlug,
}

sanitize_slug_run : sanitize_slug (codes "../my  style__v2!.safetensors") ≡ codes "my_style_v2"
unfolding sanitize_slug clean collapse lstrip_separators rstrip_separators starts_with ends_with
sanitize_slug_run = refl

sanitize_slug-IsSlug_example : IsSlug (sanitize_slug (codes "../my  style__v2!.safetensors"))
sanitize_slug-IsSlug_example = sanitize_slug-IsSlug (codes "../my  style__v2!.safetensors")
