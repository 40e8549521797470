-- ===== src/Notes/Graph/Related.antt =====
-- internal/notes/graph.go: what `Related` returns.
use docsiq.Prelude.{
  if◌then◌else◌, ◌≡◌, refl, ◌∙◌, true, false, ◌&&◌, ◌||◌, not, List, [], ◌∷◌, any, arith, Bool,
}
use docsiq.Prelude.Distinct.{distinct}
use docsiq.Prelude.Sort.{
  bytes_lt, bytes_lt-asym, is_sorted, any-sort, sort-is_sorted, sort-distinct,
}
use docsiq.Prelude.Text.{Bytes, bytes_eq, bytes_eq_iff}
use docsiq.Notes.Links.{add_key}
use docsiq.Notes.Links.Render.{any-add_key, add_key-distinct}
use docsiq.Notes.Graph.{Edge, Graph, add_related, related_keys, related}

-- An edge joins a note and another one, in one of the two directions.
abbrev pub joins : Bytes → Bytes → Edge → Bool
joins key k e =
    not (bytes_eq k key)
    && ((bytes_eq e.source key && bytes_eq k e.target)
        || (bytes_eq e.target key && bytes_eq k e.source))

any-add_related :
    (key k : Bytes) (seen : List Bytes) (e : Edge)
    → any (bytes_eq k) (add_related key seen e) ≡ (any (bytes_eq k) seen || joins key k e)
any-add_related key k seen e = grind (arith, any-add_key, bytes_eq_iff)

any-related_keys :
    (key k : Bytes) (seen : List Bytes) (es : List Edge)
    → any (bytes_eq k) (related_keys key seen es) ≡ (any (bytes_eq k) seen || any (joins key k) es)
any-related_keys key k seen [] = ground arith
any-related_keys key k seen (e ∷ es) =
    any-related_keys key k (add_related key seen e) es
    ∙ ground (arith, any-add_related key k seen e)

-- A key joins, or does not.
maybe_add-distinct :
    (b : Bool) (seen : List Bytes) (t : Bytes)
    → distinct bytes_eq seen ≡ true
    → distinct bytes_eq (if b then add_key seen t else seen) ≡ true
maybe_add-distinct true seen t h = add_key-distinct seen t h
maybe_add-distinct false seen t h = h

add_related-distinct :
    (key : Bytes) (seen : List Bytes) (e : Edge)
    → distinct bytes_eq seen ≡ true
    → distinct bytes_eq (add_related key seen e) ≡ true
add_related-distinct key seen e h =
    let first = bytes_eq e.source key && not (bytes_eq e.target key) in
    maybe_add-distinct (bytes_eq e.target key && not (bytes_eq e.source key))
      (if first then add_key seen e.target else seen) e.source
      (maybe_add-distinct first seen e.target h)

related_keys-distinct :
    (key : Bytes) (seen : List Bytes) (es : List Edge)
    → distinct bytes_eq seen ≡ true
    → distinct bytes_eq (related_keys key seen es) ≡ true
related_keys-distinct key seen [] h = h
related_keys-distinct key seen (e ∷ es) h =
    related_keys-distinct key (add_related key seen e) es (add_related-distinct key seen e h)

-- `Related` of a graph and a note's key returns a key exactly if it is another key than the note's
-- and an edge of the graph leads from the one to the other, in either direction; it returns no key
-- twice, and the keys in order.
pub related_lem :
    (g : Graph) (key k : Bytes)
    → (any (bytes_eq k) (related g key) ≡ any (joins key k) g.edges)
      × (distinct bytes_eq (related g key) ≡ true)
      × (is_sorted bytes_lt (related g key) ≡ true)
unfolding related
related_lem g key k =
    let keys = related_keys key [] g.edges in
    (
      any-sort bytes_lt (bytes_eq k) keys ∙ any-related_keys key k [] g.edges,
      sort-distinct bytes_lt bytes_eq bytes_eq_iff keys (related_keys-distinct key [] g.edges refl),
      sort-is_sorted bytes_lt bytes_lt-asym keys,
    )
