-- ===== src/Project/Slug/Tests.antt =====
-- Slugs of remotes.
use docsiq.Prelude.Space.{trim_space}
use docsiq.Prelude.{◌≡◌, refl}
use docsiq.Prelude.Text.{cut_byte, Bytes, codes}
use docsiq.Project.Slug.{
  collapse_dashes, normalize, cons_some, slug_valid, lowered, hex_value, unescape, hex_pair,
  replace_non_slug, slug, ok, err, normalized_empty,
}
use docsiq.Project.Slug.Canonical.{IsCanonical, slug-IsCanonical}

abbrev same : Bytes → Bytes
same s = s

abbrev remote : Bytes
remote = codes " git@GitHub.com:Owner/My%20Repo.git\n"

slug_runs : slug same remote ≡ ok (codes "github-com-owner-my-repo")
unfolding slug trim_space normalize collapse_dashes replace_non_slug lowered unescape cut_byte
    cons_some hex_pair hex_value slug_valid
slug_runs = refl

port_runs : slug same (codes "ssh://git@host:22/owner/repo.git") ≡ ok (codes "host-owner-repo")
unfolding slug trim_space normalize collapse_dashes replace_non_slug lowered unescape cut_byte
    cons_some slug_valid
port_runs = refl

nothing_left : slug same (codes "https://_-") ≡ err normalized_empty
unfolding slug trim_space normalize collapse_dashes replace_non_slug lowered unescape cut_byte
    cons_some
nothing_left = refl

slug-IsCanonical_example : IsCanonical (codes "github-com-owner-my-repo")
slug-IsCanonical_example = slug-IsCanonical same remote slug_runs
