-- ===== src/Crawler/Bounds.antt =====
-- The bound on the pages of a whole crawl.
use docsiq.Crawler.Sitemaps.{
  Crawled, pages, endless, Sitemap, urls, failed, unfinished, fetch_pages, fetch_capped, crawl,
  discover_sitemap,
}
use docsiq.Prelude.{
  ℕ, ◌≤◌, Bool, true, false, List, [], ◌∷◌, length, take, length-take-le, arith, Option-cases,
  Bool-cases, inl, inr, if◌then◌else◌,
}
use docsiq.Prelude.Int.{or_default}
use docsiq.Prelude.Text.{Bytes, bytes_eq}
use docsiq.Prelude.Space.{trim_space}
use docsiq.Crawler.{Web, Options, Item, bfs_crawl}

length-fetch_pages : (web : Web) (us : List Bytes) → length (fetch_pages web us) ≤ length us
unfolding fetch_pages
length-fetch_pages web [] = omega arith
length-fetch_pages web (u ∷ us) =
    let h = length-fetch_pages web us in
    elim (Option-cases (web.load u)) [
      | inl e ↦ rw (e, fetch_pages) (omega (arith, h))
      | inr (content, e) ↦ elim (Bool-cases (bytes_eq (trim_space content) [])) [
        | inl f ↦ rw (e, f, fetch_pages) (omega (arith, h))
        | inr f ↦ rw (e, f, fetch_pages) (omega (arith, h))
      ]
    ]

abbrev pub IsBounded : ℕ → Crawled → Type 0
IsBounded n (pages ps) = length ps ≤ n
IsBounded n _ = Unit

fetch_capped-IsBounded : (web : Web) (n : ℕ) (us : List Bytes) → IsBounded n (fetch_capped web n us)
unfolding fetch_capped
fetch_capped-IsBounded web n us =
    omega (arith, length-fetch_pages web (take n us), length-take-le n us)

-- A crawl, by sitemap or by links, returns at most `MaxPages` pages, or 500 if that is not set.
pub crawl-IsBounded :
    (web : Web) (cancelled : List Bytes → List Item → Bool) (fuel : ℕ) (root_url : Bytes)
    (opts : Options)
    → IsBounded (or_default opts.max_pages 500) (crawl web cancelled fuel root_url opts)
unfolding crawl
crawl-IsBounded web cancelled fuel root_url opts = elim (Option-cases (web.parse root_url)) [
  | inl e ↦ rw (e, crawl) tt
  | inr (u, e) ↦
      rw (e, crawl)
        (choose (bfs_crawl web (web.clear u) opts.max_depth cancelled 0 n) opts.skip_sitemap
          (discover_sitemap web (web.clear u) fuel))
]
  where
    n : ℕ
    n = or_default opts.max_pages 500

    choose :
        (found : List Bytes) (skip : Bool) (s : Sitemap)
        → IsBounded n (
            if skip then fetch_capped web n found else elim s [
              | unfinished ↦ endless
              | failed ↦ fetch_capped web n found
              | urls [] ↦ fetch_capped web n found
              | urls (l ∷ ls) ↦ fetch_capped web n (l ∷ ls)
            ])
    choose found true s = fetch_capped-IsBounded web n found
    choose found false unfinished = tt
    choose found false failed = fetch_capped-IsBounded web n found
    choose found false (urls []) = fetch_capped-IsBounded web n found
    choose found false (urls (l ∷ ls)) = fetch_capped-IsBounded web n (l ∷ ls)
