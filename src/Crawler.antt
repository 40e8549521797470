-- ===== src/Crawler.antt =====
-- internal/crawler/crawler.go: the crawl of a documentation site. Packages net/url, net/http,
-- encoding/xml, x/net/html and the page loader are the parameter `Web`; a page answers the same at
-- every request.
use docsiq.Prelude.{
  ℕ, zero, suc, ◌+◌, ◌≡◌, refl, Bool, true, false, ◌&&◌, ◌||◌, not, Option, none, some, List, [],
  ◌∷◌, ◌++◌, map, any, filter, take, length, leb, ltb, ◌==◌, if◌then◌else◌,
}
use docsiq.Prelude.Int.{ℤ, pos, or_default}
use docsiq.Prelude.Text.{Bytes, codes, bytes_eq, has_prefix}
use docsiq.Prelude.Space.{trim_space}
use docsiq.Project.Slug.{lower_byte}
pub mod Bfs
pub mod Sitemaps
pub mod Index
pub mod Bounds
pub mod Closure
mod Tests

-- An HTML node with its attributes and its children, in order.
mutual
  pub data Node : Type 0 where
    element : Bytes → List (Bytes × Bytes) → Nodes → Node
    other : Nodes → Node

  pub data Nodes : Type 0 where
    no_sibling : Nodes
    sibling : Node → Nodes → Nodes

-- `document` is a GET with status 200 whose body parses; `body` one whose body is read; `index` and
-- `url_set` are the two decodings of a sitemap; `load` is `LoadURL`, the text of the page.
pub record Web : Type 1 where
  pub Url : Type 0
  pub parse : Bytes → Option Url
  pub scheme : Url → Bytes
  pub host : Url → Bytes
  pub path : Url → Bytes
  pub resolve_reference : Url → Url → Url
  pub clear : Url → Url
  pub text : Url → Bytes
  pub lower : Bytes → Bytes
  pub document : Bytes → Option Node
  pub body : Bytes → Option Bytes
  pub index : Bytes → Option (List Bytes)
  pub url_set : Bytes → Option (List Bytes)
  pub load : Bytes → Option Bytes

pub record Options : Type 0 where
  pub max_pages : ℤ
  pub max_depth : ℤ
  pub skip_sitemap : Bool

-- An entry of the queue.
pub record Item : Type 0 where
  pub u : Bytes
  pub depth : ℕ

abbrev pub member : Bytes → List Bytes → Bool
member u = any (bytes_eq u)

-- The attributes `href` of the elements `a`, in document order.
abbrev pub hrefs : List (Bytes × Bytes) → List Bytes
hrefs [] = []
hrefs ((key, value) ∷ attrs) =
    let rest = hrefs attrs in if bytes_eq key (codes "href") then value ∷ rest else rest

unfoldable mutual
  pub walk : Node → List Bytes
  walk (element tag attrs children) =
      (if bytes_eq tag (codes "a") then hrefs attrs else []) ++ walk_all children
  walk (other children) = walk_all children

  pub walk_all : Nodes → List Bytes
  walk_all no_sibling = []
  walk_all (sibling n ns) = walk n ++ walk_all ns

abbrev pub is_http : Bytes → Bool
is_http s = bytes_eq s (codes "http") || bytes_eq s (codes "https")

-- The test `opts.MaxDepth > 0 && item.depth >= opts.MaxDepth`.
abbrev pub at_depth : ℤ → ℕ → Bool
at_depth (pos n) depth = ltb 0 n && leb n depth
at_depth _ depth = false

-- The new entries of the queue.
abbrev pub enqueue : List Bytes → ℕ → List Bytes → List Item
enqueue visited depth links =
    map (λ l. record { u = l; depth = depth + 1 }) (filter (λ l. not (member l visited)) links)

module _ (web : Web) where
  open web use {Url, parse, scheme, host, path, resolve_reference, clear, text, lower, document}

  unfoldable pub is_same_origin : Url → Bytes → Bool
  is_same_origin base raw_url = elim (parse raw_url) [
    | none ↦ false
    | some u ↦ bytes_eq (host u) (host base) && has_prefix (path u) (path base)
  ]

  -- `none` is the empty text of `resolveURL`.
  unfoldable pub resolve_url : Bytes → Bytes → Option Bytes
  resolve_url base href = if has_prefix href (codes "#") then none else elim (parse base) [
    | none ↦ none
    | some b ↦ elim (parse href) [
      | none ↦ none
      | some h ↦
          if not (bytes_eq (scheme h) []) && not (is_http (lower (scheme h)))
          then none
          else if not (is_http (lower (scheme (resolve_reference b h))))
          then none
          else some (text (clear (resolve_reference b h)))
    ]
  ]

  -- The links of the attributes that are left, those seen being known.
  unfoldable pub collect_links : Url → Bytes → List Bytes → List Bytes → List Bytes
  collect_links base page seen [] = []
  collect_links base page seen (href ∷ more) =
      let skipped = collect_links base page seen more in
      elim (resolve_url page href) [
        | none ↦ skipped
        | some r ↦
            let added = collect_links base page (r ∷ seen) more in
            if not (bytes_eq r []) && (is_same_origin base r && not (member r seen))
            then r ∷ added
            else skipped
      ]

  unfoldable pub extract_links : Url → Bytes → List Bytes
  extract_links base page = elim (document page) [
    | none ↦ []
    | some doc ↦ collect_links base page [] (walk doc)
  ]

  -- The loop of `bfsCrawl`; the number is how many pages may still be found. `cancelled` tells
  -- whether the context is done in a state of the loop, no state being met twice.
  module _ (base : Url) (max_depth : ℤ) (cancelled : List Bytes → List Item → Bool) where
    unfoldable pub bfs_loop : ℕ → List Item → List Bytes → List Bytes → List Bytes
    bfs_loop zero queue visited found = found
    bfs_loop (suc n) [] visited found = found
    bfs_loop (suc n) (item ∷ queue) visited found = elim (cancelled found (item ∷ queue)) [
      | true ↦ found
      | false ↦ elim (member item.u visited) [
        | true ↦ bfs_loop (suc n) queue visited found
        | false ↦ elim (at_depth max_depth item.depth) [
          | true ↦ bfs_loop n queue (item.u ∷ visited) (found ++ item.u ∷ [])
          | false ↦
              bfs_loop n
                (queue ++ enqueue (item.u ∷ visited) item.depth (extract_links base item.u))
                (item.u ∷ visited) (found ++ item.u ∷ [])
        ]
      ]
    ]

    -- `opts.MaxPages` is no limit if it is 0; such a search may go on for ever, and what it has found
    -- after a number of visits is given.
    abbrev pub room : ℕ → ℕ → ℕ
    room visits zero = visits
    room visits (suc n) = suc n

    unfoldable pub bfs_crawl : ℕ → ℕ → List Bytes
    bfs_crawl visits max_pages =
        bfs_loop (room visits max_pages) (record { u = text base; depth = 0 } ∷ []) [] []
