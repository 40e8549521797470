-- ===== src/Notes/Graph.antt =====
-- internal/notes/graph.go: the graph of a project's notes and their links. What `os.Stat` finds is a
-- parameter. `List` gives the notes.
use docsiq.Prelude.{
  ◌≡◌, Bool, true, false, ◌&&◌, ◌||◌, not, Option, none, some, List, [], ◌∷◌, ◌++◌, any, ◌==◌,
  if◌then◌else◌,
}
use docsiq.Prelude.FilePath.{file_join}
use docsiq.Prelude.Sort.{bytes_lt, sort}
use docsiq.Prelude.Text.{Bytes, codes, bytes_eq}
use docsiq.Notes.Files.{
  Env, Disk, Note, ReadResult, note, failed, NoteError, not_found, read, list_keys,
}
use docsiq.Notes.Links.{Wikilink, extract_wikilinks, parse_wikilink, add_key}
pub mod Related
pub mod Edges
pub mod Nodes
mod Tests

pub record NoteNode : Type 0 where
  pub key : Bytes
  pub title : Bytes
  pub folder : Bytes
  pub tags : List Bytes
  pub project : Bytes
  pub missing : Bool

pub record Edge : Type 0 where
  pub source : Bytes
  pub target : Bytes
  pub cross_project : Bool

pub record Graph : Type 0 where
  pub nodes : List NoteNode
  pub edges : List Edge

-- `strings.LastIndex(key, "/")`, as a split there.
abbrev pub cut_last : Bytes → Option (Bytes × Bytes)
cut_last [] = none
cut_last (c ∷ s) = elim (cut_last s) [
  | some (l, r) ↦ some (c ∷ l, r)
  | none ↦ if c == b'/' then some ([], s) else none
]

abbrev pub title_from_key : Bytes → Bytes
title_from_key key = elim (cut_last key) [ some (l, r) ↦ r | none ↦ key ]

abbrev pub folder_from_key : Bytes → Bytes
folder_from_key key = elim (cut_last key) [ some (l, r) ↦ l | none ↦ [] ]

-- `filepath.Join(root, wl.Project, "notes", wl.Key+".md")`
abbrev pub candidate : Bytes → Wikilink → Bytes
candidate root wl =
    file_join root (wl.project ++ (b'/' ∷ (codes "notes" ++ (b'/' ∷ (wl.key ++ codes ".md")))))

-- `absent` tells that nothing is at a path.
abbrev pub stub_missing : (Bytes → Bool) → Bytes → Wikilink → Bool
stub_missing absent [] wl = true
stub_missing absent (c ∷ root) wl = absent (candidate (c ∷ root) wl)

-- The keys of the stubs, and the graph so far.
pub record Build : Type 0 where
  pub stubs : List Bytes
  pub graph : Graph

abbrev pub put_edge : Bytes → Bytes → Bool → Build → Build
put_edge source target cross b = record {
  stubs = b.stubs;
  graph = record {
    nodes = b.graph.nodes;
    edges =
        b.graph.edges ++ record { source = source; target = target; cross_project = cross } ∷ [];
  };
}

module _ (absent : Bytes → Bool) (root : Bytes) where
  -- `crossStubs` and the stub's node.
  abbrev pub add_stub : Bytes → Wikilink → Build → Build
  add_stub target wl b = if any (bytes_eq target) b.stubs then b else record {
    stubs = target ∷ b.stubs;
    graph = record {
      nodes =
          b.graph.nodes
          ++ record {
            key = target;
            title = title_from_key wl.key;
            folder = folder_from_key wl.key;
            tags = [];
            project = wl.project;
            missing = stub_missing absent root wl;
          }
            ∷ [];
      edges = b.graph.edges;
    };
  }

  -- The body of the loop over a note's links.
  unfoldable pub add_link : Bytes → Bytes → Build → Build
  add_link source target b =
      let wl = parse_wikilink target in
      if wl.cross_project
      then put_edge source target true (add_stub target wl b)
      else put_edge source target false b

  unfoldable pub add_links : Bytes → List Bytes → Build → Build
  add_links source [] b = b
  add_links source (t ∷ ts) b = add_links source ts (add_link source t b)

abbrev pub edge_lt : Edge → Edge → Bool
edge_lt e f =
    if bytes_eq e.source f.source then bytes_lt e.target f.target else bytes_lt e.source f.source

module _ (env : Env) where
  open env use {Time}

  pub data Listed : Type 0 where
    notes : List (Note env) → Listed
    list_failed : NoteError → Listed

  -- A note before those that are listed; one that has vanished is skipped.
  abbrev pub cons_read : ReadResult env → Listed → Listed
  cons_read (note n) (notes ns) = notes (n ∷ ns)
  cons_read (note n) (list_failed e) = list_failed e
  cons_read (failed not_found) rest = rest
  cons_read (failed e) rest = list_failed e

  abbrev pub read_keys : (Bytes → ReadResult env) → List Bytes → Listed
  read_keys get [] = notes []
  read_keys get (k ∷ ks) = cons_read (get k) (read_keys get ks)

  -- `List`, of a directory that can be walked.
  unfoldable pub list_notes : Option Bytes → Bytes → Bytes → Bool → Time → Disk → Listed
  list_notes wd base notes_dir readable mod_time disk =
      read_keys (read env wd notes_dir readable mod_time disk) (list_keys base disk)

  abbrev pub note_nodes : List (Note env) → List NoteNode
  note_nodes [] = []
  note_nodes (n ∷ ns) =
      record {
        key = n.key;
        title = title_from_key n.key;
        folder = folder_from_key n.key;
        tags = n.tags;
        project = [];
        missing = false;
      }
      ∷ note_nodes ns

  unfoldable pub add_notes : (Bytes → Bool) → Bytes → List (Note env) → Build → Build
  add_notes absent root [] b = b
  add_notes absent root (n ∷ ns) b =
      add_notes absent root ns (add_links absent root n.key (extract_wikilinks n.content) b)

  -- `BuildGraph` of the notes that `List` gives. `sort.Slice` leaves the order of nodes with the
  -- same key open; here they keep theirs.
  unfoldable pub build_graph : (Bytes → Bool) → Bytes → List (Note env) → Graph
  build_graph absent root ns =
      let b =
        add_notes absent root ns
          (record { stubs = []; graph = record { nodes = note_nodes ns; edges = [] } }) in
      record {
        nodes = sort (λ m n. bytes_lt m.key n.key) b.graph.nodes;
        edges = sort edge_lt b.graph.edges;
      }

-- The body of the loop over the edges.
abbrev pub add_related : Bytes → List Bytes → Edge → List Bytes
add_related key seen e =
    let out =
      if bytes_eq e.source key && not (bytes_eq e.target key)
      then add_key seen e.target
      else seen in
    if bytes_eq e.target key && not (bytes_eq e.source key) then add_key out e.source else out

abbrev pub related_keys : Bytes → List Bytes → List Edge → List Bytes
related_keys key seen [] = seen
related_keys key seen (e ∷ es) = related_keys key (add_related key seen e) es

-- `Related` of a graph that is not nil.
unfoldable pub related : Graph → Bytes → List Bytes
related g key = sort bytes_lt (related_keys key [] g.edges)
