-- ===== src/Notes/Graph/Tests.antt =====
-- Two notes that link each other, and a note of another project.
use docsiq.Prelude.{◌≡◌, refl, true, false, ◌||◌, none, List, [], ◌∷◌, any}
use docsiq.Prelude.Distinct.{distinct}
use docsiq.Prelude.Sort.{insert, sort, is_sorted, bytes_lt}
use docsiq.Prelude.Text.{Bytes, codes, bytes_eq}
use docsiq.Notes.Files.{Env, Note}
use docsiq.Notes.Links.{extract_wikilinks}
use docsiq.Notes.Graph.{Edge, Graph, build_graph, related}
use docsiq.Notes.Graph.Related.{joins, related_lem}
use docsiq.Notes.Graph.Edges.{edge_eq, link_edge, build_graph-edges}
use docsiq.Notes.Graph.Nodes.{has_node, is_stub_key, build_graph-nodes}

-- Frontmatter without entries, and no time.
abbrev env : Env
env = record {
  yaml = record {
    Map = List Bytes;
    empty = [];
    is_empty = λ m. true;
    unmarshal = λ b. none;
    encode = λ m. none;
  };
  get = λ m k. none;
  put = λ m k v. m;
  Time = List Bytes;
  is_zero = λ t. true;
  format = λ t. [];
  format_nano = λ t. [];
  parse_time = λ s. none;
}

abbrev a_note : Bytes → Bytes → Note env
a_note key content = record {
  key = key;
  content = content;
  author = [];
  tags = [];
  frontmatter = [];
  created_at = [];
  updated_at = [];
}

abbrev some_notes : List (Note env)
some_notes =
    a_note (codes "a") (codes "[[b]] [[projects/x/c]]") ∷ a_note (codes "b") (codes "[[a|A]]") ∷ []

abbrev to_b : Edge
to_b = record { source = codes "a"; target = codes "b"; cross_project = false }

build_graph-edges_example :
    any (edge_eq to_b) (build_graph env (λ p. true) [] some_notes).edges
    ≡ any
        (λ n. any (λ t. edge_eq to_b (link_edge n.key t)) (extract_wikilinks n.content))
        some_notes
build_graph-edges_example = build_graph-edges env (λ p. true) [] some_notes to_b

build_graph-nodes_example :
    has_node (codes "projects/x/c") (build_graph env (λ p. true) [] some_notes).nodes ≡ (
      any (λ n. bytes_eq (codes "projects/x/c") n.key) some_notes
      || any
          (λ n. any (is_stub_key (codes "projects/x/c")) (extract_wikilinks n.content))
          some_notes)
build_graph-nodes_example = build_graph-nodes env (λ p. true) [] some_notes (codes "projects/x/c")

abbrev both_ways : Graph
both_ways = record {
  nodes = [];
  edges =
      to_b
      ∷ record { source = codes "b"; target = codes "a"; cross_project = false }
      ∷ record { source = codes "0"; target = codes "a"; cross_project = false }
      ∷ [];
}

related_lem_example :
    (any (bytes_eq (codes "b")) (related both_ways (codes "a"))
      ≡ any (joins (codes "a") (codes "b")) both_ways.edges)
    × (distinct bytes_eq (related both_ways (codes "a")) ≡ true)
    × (is_sorted bytes_lt (related both_ways (codes "a")) ≡ true)
related_lem_example = related_lem both_ways (codes "a") (codes "b")

related_in_order : related both_ways (codes "a") ≡ codes "0" ∷ codes "b" ∷ []
unfolding related sort insert
related_in_order = refl
