-- ===== src/Notes/Graph/Nodes.antt =====
-- internal/notes/graph.go: the nodes of `BuildGraph`.
use docsiq.Prelude.{
  ◌≡◌, refl, ◌∙◌, true, ◌&&◌, ◌||◌, List, [], ◌∷◌, any, arith, Bool-cases, inl, inr, Bool,
}
use docsiq.Prelude.Sort.{bytes_lt, any-sort}
use docsiq.Prelude.Text.{Bytes, bytes_eq, bytes_eq_iff}
use docsiq.Notes.Files.{Env, Note}
use docsiq.Notes.Links.{Wikilink, extract_wikilinks, parse_wikilink}
use docsiq.Notes.Graph.{
  NoteNode, Build, add_stub, add_link, add_links, add_notes, note_nodes, build_graph,
}
use docsiq.Notes.Graph.Edges.{any-snoc}

abbrev pub has_node : Bytes → List NoteNode → Bool
has_node k nodes = any (λ m. bytes_eq k m.key) nodes

-- The target is in another project, and is the key.
abbrev pub is_stub_key : Bytes → Bytes → Bool
is_stub_key k target = (parse_wikilink target).cross_project && bytes_eq k target

-- Every stub has its node.
abbrev IsBuild : Build → Type 0
IsBuild b = (k : Bytes) → any (bytes_eq k) b.stubs ≡ true → has_node k b.graph.nodes ≡ true

module _ (absent : Bytes → Bool) (root : Bytes) where
  nodes-add_stub :
      (target : Bytes) (wl : Wikilink) (b : Build) (k : Bytes)
      → IsBuild b
      → has_node k (add_stub absent root target wl b).graph.nodes
        ≡ (has_node k b.graph.nodes || bytes_eq k target)
  nodes-add_stub target wl b k h = elim (Bool-cases (any (bytes_eq target) b.stubs)) [
    | inr e ↦ rw e (any-snoc (λ (m : NoteNode). bytes_eq k m.key) b.graph.nodes _)
    | inl e ↦ rw e (ground (arith, h target e, bytes_eq_iff k target))
  ]

  add_stub-IsBuild :
      (target : Bytes) (wl : Wikilink) (b : Build)
      → IsBuild b
      → IsBuild (add_stub absent root target wl b)
  add_stub-IsBuild target wl b h k m = nodes-add_stub target wl b k h ∙ ground (arith, h k)

  add_link-IsBuild :
      (source target : Bytes) (b : Build)
      → IsBuild b
      → IsBuild (add_link absent root source target b)
  unfolding add_link
  add_link-IsBuild source target b h k m =
      ground (arith, add_stub-IsBuild target (parse_wikilink target) b h k, h k)

  nodes-add_link :
      (source target : Bytes) (b : Build) (k : Bytes)
      → IsBuild b
      → has_node k (add_link absent root source target b).graph.nodes
        ≡ (has_node k b.graph.nodes || is_stub_key k target)
  unfolding add_link
  nodes-add_link source target b k h =
      ground (arith, nodes-add_stub target (parse_wikilink target) b k h)

  add_links-IsBuild :
      (source : Bytes) (ts : List Bytes) (b : Build)
      → IsBuild b
      → IsBuild (add_links absent root source ts b)
  unfolding add_links
  add_links-IsBuild source [] b h = h
  add_links-IsBuild source (t ∷ ts) b h =
      add_links-IsBuild source ts (add_link absent root source t b) (add_link-IsBuild source t b h)

  nodes-add_links :
      (source : Bytes) (ts : List Bytes) (b : Build) (k : Bytes)
      → IsBuild b
      → has_node k (add_links absent root source ts b).graph.nodes
        ≡ (has_node k b.graph.nodes || any (is_stub_key k) ts)
  unfolding add_links
  nodes-add_links source [] b k h = ground arith
  nodes-add_links source (t ∷ ts) b k h =
      nodes-add_links source ts (add_link absent root source t b) k (add_link-IsBuild source t b h)
      ∙ ground (arith, nodes-add_link source t b k h)

  nodes-add_notes :
      (env : Env) (ns : List (Note env)) (b : Build) (k : Bytes)
      → IsBuild b
      → has_node k (add_notes env absent root ns b).graph.nodes ≡ (
          has_node k b.graph.nodes
          || any (λ n. any (is_stub_key k) (extract_wikilinks n.content)) ns)
  unfolding add_notes
  nodes-add_notes env [] b k h = ground arith
  nodes-add_notes env (n ∷ ns) b k h =
      let links = extract_wikilinks n.content in
      nodes-add_notes env ns (add_links absent root n.key links b) k
        (add_links-IsBuild n.key links b h)
      ∙ ground (arith, nodes-add_links n.key links b k h)

has_node-note_nodes :
    (env : Env) (ns : List (Note env)) (k : Bytes)
    → has_node k (note_nodes env ns) ≡ any (λ n. bytes_eq k n.key) ns
has_node-note_nodes env [] k = refl
has_node-note_nodes env (n ∷ ns) k = ground (arith, has_node-note_nodes env ns k)

-- `BuildGraph` has a node of a key exactly if the key is that of one of the notes, or the target of
-- a link in one of their bodies that `ParseWikilink` finds to lead to another project.
pub build_graph-nodes :
    (env : Env) (absent : Bytes → Bool) (root : Bytes) (ns : List (Note env)) (k : Bytes)
    → has_node k (build_graph env absent root ns).nodes ≡ (
        any (λ n. bytes_eq k n.key) ns
        || any (λ n. any (is_stub_key k) (extract_wikilinks n.content)) ns)
unfolding build_graph
build_graph-nodes env absent root ns k =
    let b : Build = record {
      stubs = [];
      graph = record { nodes = note_nodes env ns; edges = [] };
    } in
    any-sort (λ m n. bytes_lt m.key n.key) (λ m. bytes_eq k m.key)
      (add_notes env absent root ns b).graph.nodes
    ∙ nodes-add_notes absent root env ns b k (λ (j : Bytes) m. cc)
    ∙ ground (arith, has_node-note_nodes env ns k)
