-- ===== src/Notes/Links/Tests.antt =====
-- A body with two links to one target and one to another, behind an alias.
use docsiq.Prelude.{◌≡◌, refl, true, none, some, List, [], ◌∷◌, any, map}
use docsiq.Prelude.Distinct.{distinct}
use docsiq.Prelude.Text.{Bytes, codes, bytes_eq}
use docsiq.Notes.Links.{add_targets, link_at, matches, extract_wikilinks, cross_match}
use docsiq.Notes.Links.Render.{Part, render, extract_wikilinks-render}

abbrev parts : List Part
parts =
    record { before = codes "see "; target = codes "a/b"; alias = none }
    ∷ record { before = codes ", "; target = codes "c"; alias = some (codes "that | one") }
    ∷ record { before = []; target = codes "a/b"; alias = some [] }
    ∷ []

abbrev end : Bytes
end = codes " and ]] no more"

extract_wikilinks-render_example :
    (any (bytes_eq (codes "c")) (extract_wikilinks (render parts end))
      ≡ any (bytes_eq (codes "c")) (map (λ p. p.target) parts))
    × (distinct bytes_eq (extract_wikilinks (render parts end)) ≡ true)
extract_wikilinks-render_example =
    extract_wikilinks-render parts end (codes "c")
      (
        record { plain = refl; is_link = refl; is_some = cc; is_named = refl },
        (
          record { plain = refl; is_link = refl; is_some = cc; is_named = refl },
          (record { plain = refl; is_link = refl; is_some = cc; is_named = refl }, tt),
        ),
      )
      refl (cc)

extract_twice : extract_wikilinks (render parts end) ≡ codes "a/b" ∷ codes "c" ∷ []
unfolding extract_wikilinks add_targets matches link_at
extract_twice = refl

nested : extract_wikilinks (codes "[[[x]] [[]] [[y|z]") ≡ codes "[x" ∷ []
unfolding extract_wikilinks add_targets matches link_at
nested = refl

cross : cross_match (codes "projects/B_1/x/y") ≡ some (codes "B_1", codes "x/y")
unfolding cross_match
cross = refl

not_cross : cross_match (codes "projects/B.1/x") ≡ none
unfolding cross_match
not_cross = refl
