-- ===== src/Notes/Graph/Edges.antt =====
-- internal/notes/graph.go: the edges and the nodes that `BuildGraph` makes.
use docsiq.Prelude.{
  if◌then◌else◌, ap, ◌≡◌, refl, ◌∙◌, true, false, ◌&&◌, ◌||◌, not, List, [], ◌∷◌, ◌++◌, any, arith,
  Bool,
}
use docsiq.Prelude.Sort.{any-sort}
use docsiq.Prelude.Text.{Bytes, bytes_eq}
use docsiq.Notes.Files.{Env, Note}
use docsiq.Notes.Links.{Wikilink, extract_wikilinks, parse_wikilink}
use docsiq.Notes.Graph.{
  Edge, Build, add_stub, put_edge, add_link, add_links, add_notes, note_nodes, build_graph, edge_lt,
}

abbrev pub same : Bool → Bool → Bool
same true b = b
same false b = not b

abbrev pub edge_eq : Edge → Edge → Bool
edge_eq e f =
    bytes_eq e.source f.source && bytes_eq e.target f.target && same e.cross_project f.cross_project

-- The edge of a link from a note.
abbrev pub link_edge : Bytes → Bytes → Edge
link_edge source target = record {
  source = source;
  target = target;
  cross_project = (parse_wikilink target).cross_project;
}

pub any-snoc :
    {A : Type 0} → (p : A → Bool) (xs : List A) (x : A) → any p (xs ++ x ∷ []) ≡ (any p xs || p x)
any-snoc p [] x = ground arith
any-snoc p (y ∷ xs) x = ground (arith, any-snoc p xs x)

module _ (absent : Bytes → Bool) (root : Bytes) where
  edges-add_stub :
      (target : Bytes) (wl : Wikilink) (b : Build)
      → (add_stub absent root target wl b).graph.edges ≡ b.graph.edges
  edges-add_stub target wl b = ground arith

  add_link-edges :
      (source target : Bytes) (b : Build)
      → (add_link absent root source target b).graph.edges
        ≡ b.graph.edges ++ link_edge source target ∷ []
  unfolding add_link
  add_link-edges source target b =
      let wl = parse_wikilink target in
      elim wl.cross_project
        as (λ c.
          (if c
            then put_edge source target true (add_stub absent root target wl b)
            else put_edge source target false b).graph.edges
          ≡ b.graph.edges ++ record { source = source; target = target; cross_project = c } ∷ []) [
            | true ↦
                ap
                  (λ (es : List Edge).
                    es ++ record { source = source; target = target; cross_project = true } ∷ [])
                  (edges-add_stub target wl b)
            | false ↦ refl
          ]

  edges-add_link :
      (p : Edge → Bool) (source target : Bytes) (b : Build)
      → any p (add_link absent root source target b).graph.edges
        ≡ (any p b.graph.edges || p (link_edge source target))
  edges-add_link p source target b =
      rw (add_link-edges source target b) (any-snoc p b.graph.edges (link_edge source target))

  edges-add_links :
      (p : Edge → Bool) (source : Bytes) (ts : List Bytes) (b : Build)
      → any p (add_links absent root source ts b).graph.edges
        ≡ (any p b.graph.edges || any (λ t. p (link_edge source t)) ts)
  unfolding add_links
  edges-add_links p source [] b = ground arith
  edges-add_links p source (t ∷ ts) b =
      edges-add_links p source ts (add_link absent root source t b)
      ∙ ground (arith, edges-add_link p source t b)

  edges-add_notes :
      (env : Env) (p : Edge → Bool) (ns : List (Note env)) (b : Build)
      → any p (add_notes env absent root ns b).graph.edges ≡ (
          any p b.graph.edges
          || any (λ n. any (λ t. p (link_edge n.key t)) (extract_wikilinks n.content)) ns)
  unfolding add_notes
  edges-add_notes env p [] b = ground arith
  edges-add_notes env p (n ∷ ns) b =
      edges-add_notes env p ns (add_links absent root n.key (extract_wikilinks n.content) b)
      ∙ ground (arith, edges-add_links p n.key (extract_wikilinks n.content) b)

-- `BuildGraph` gives an edge exactly if it leads from one of the notes to the target of a link that
-- `ExtractWikilinks` finds in the note's body, and is marked as a link to another project exactly
-- if `ParseWikilink` of the target says so.
pub build_graph-edges :
    (env : Env) (absent : Bytes → Bool) (root : Bytes) (ns : List (Note env)) (e : Edge)
    → any (edge_eq e) (build_graph env absent root ns).edges
      ≡ any (λ n. any (λ t. edge_eq e (link_edge n.key t)) (extract_wikilinks n.content)) ns
unfolding build_graph
build_graph-edges env absent root ns e =
    let b : Build = record {
      stubs = [];
      graph = record { nodes = note_nodes env ns; edges = [] };
    } in
    any-sort edge_lt (edge_eq e) (add_notes env absent root ns b).graph.edges
    ∙ edges-add_notes absent root env (edge_eq e) ns b
