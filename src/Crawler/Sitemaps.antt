-- ===== src/Crawler/Sitemaps.antt =====
-- internal/crawler/crawler.go: sitemaps, and the whole crawl.
use docsiq.Prelude.{
  ℕ, zero, suc, Bool, none, some, List, [], ◌∷◌, ◌++◌, filter, take, if◌then◌else◌,
}
use docsiq.Prelude.Int.{or_default}
use docsiq.Prelude.Text.{Bytes, codes, bytes_eq}
use docsiq.Prelude.Space.{trim_space}
use docsiq.Crawler.{Web, Options, Item, is_same_origin, bfs_crawl}

-- What a sitemap gives. `unfinished`: the recursion is deeper than the fuel.
pub data Sitemap : Type 0 where
  urls : List Bytes → Sitemap
  failed unfinished : Sitemap

-- The loop over the sitemaps of an index.
unfoldable pub collect : (Bytes → Sitemap) → List Bytes → Sitemap
collect parse_one [] = urls []
collect parse_one (loc ∷ locs) =
    let rest = collect parse_one locs in
    elim (parse_one loc) [
      | unfinished ↦ unfinished
      | failed ↦ rest
      | urls us ↦ elim rest [
        | unfinished ↦ unfinished
        | failed ↦ failed
        | urls vs ↦ urls (us ++ vs)
      ]
    ]

-- What `Crawl` returns; `endless` if the sitemaps are not finished.
pub data Crawled : Type 0 where
  pages : List (Bytes × Bytes) → Crawled
  invalid_url endless : Crawled

module _ (web : Web) where
  open web use {Url, parse, scheme, host, clear, text, body, index, url_set, load}

  unfoldable pub parse_url_set : Url → Bytes → Sitemap
  parse_url_set base content = elim (url_set content) [
    | none ↦ failed
    | some locs ↦ urls (filter (is_same_origin web base) locs)
  ]

  unfoldable pub parse_sitemap : Url → ℕ → Bytes → Sitemap
  parse_sitemap base zero url = unfinished
  parse_sitemap base (suc n) url = elim (body url) [
    | none ↦ failed
    | some content ↦ elim (index content) [
      | some (loc ∷ locs) ↦ collect (parse_sitemap base n) (loc ∷ locs)
      | some [] ↦ parse_url_set base content
      | none ↦ parse_url_set base content
    ]
  ]

  -- The fetched pages that have a text.
  unfoldable pub fetch_pages : List Bytes → List (Bytes × Bytes)
  fetch_pages [] = []
  fetch_pages (u ∷ us) =
      let rest = fetch_pages us in
      elim (load u) [
        | none ↦ rest
        | some content ↦ if bytes_eq (trim_space content) [] then rest else (u, content) ∷ rest
      ]

  -- The first candidate that lists something; `failed` is the error "no sitemap found".
  unfoldable pub try_candidates : Url → ℕ → List Bytes → Sitemap
  try_candidates base fuel [] = failed
  try_candidates base fuel (c ∷ cs) =
      let rest = try_candidates base fuel cs in
      elim (parse_sitemap base fuel c) [
        | unfinished ↦ unfinished
        | failed ↦ rest
        | urls [] ↦ rest
        | urls (u ∷ us) ↦ urls (u ∷ us)
      ]

  unfoldable pub discover_sitemap : Url → ℕ → Sitemap
  discover_sitemap base fuel = try_candidates base fuel (
      (scheme base ++ (codes "://" ++ (host base ++ codes "/sitemap.xml")))
      ∷ (text base ++ codes "/sitemap.xml")
      ∷ (text base ++ codes "sitemap.xml")
      ∷ [])

  unfoldable pub fetch_capped : ℕ → List Bytes → Crawled
  fetch_capped max_pages us = pages (fetch_pages (take max_pages us))

  -- `MaxPages` is 500 where it is not set, so the links are never searched without a limit.
  unfoldable pub crawl : (List Bytes → List Item → Bool) → ℕ → Bytes → Options → Crawled
  crawl cancelled fuel root_url opts = elim (parse root_url) [
    | none ↦ invalid_url
    | some u ↦
        let base = clear u in
        let max_pages = or_default opts.max_pages 500 in
        let searched = bfs_crawl web base opts.max_depth cancelled 0 max_pages in
        if opts.skip_sitemap
        then fetch_capped max_pages searched
        else elim (discover_sitemap base fuel) [
          | unfinished ↦ endless
          | failed ↦ fetch_capped max_pages searched
          | urls [] ↦ fetch_capped max_pages searched
          | urls (l ∷ ls) ↦ fetch_capped max_pages (l ∷ ls)
        ]
  ]
