-- ===== src/Crawler/Bfs.antt =====
-- What `bfsCrawl` finds: no page twice, no more than asked for, and only pages of the site.
use mathlib.Core.Path.{subst}
use docsiq.Prelude.{
  ℕ, zero, suc, ◌≤◌, ◌≡◌, inl, inr, refl, sym, ◌∙◌, Bool, true, false, ◌||◌, List, [], ◌∷◌, ◌++◌,
  length, arith, Bool-cases, Option-cases, All, All-append, append_assoc, append-nil,
}
use docsiq.Prelude.Distinct.{distinct, any-append, distinct-snoc}
use docsiq.Prelude.Int.{ℤ}
use docsiq.Prelude.Text.{Bytes, bytes_eq, bytes_eq_iff, bytes_eq_refl}
use docsiq.Crawler.{
  Web, Item, member, at_depth, is_same_origin, resolve_url, collect_links, extract_links, enqueue,
  bfs_loop, bfs_crawl, walk, room,
}

module _ (web : Web) (base : web.Url) (max_depth : ℤ)
    (cancelled : List Bytes → List Item → Bool) where
  -- A page of the site: the root, or one of the root's origin.
  abbrev pub on_site : Bytes → Bool
  on_site u = bytes_eq u (web.text base) || is_same_origin web base u

  -- The queue after a page has been visited.
  abbrev pub next : Item → List Item → List Bytes → List Item
  next item queue visited = elim (at_depth max_depth item.depth) [
    | true ↦ queue
    | false ↦ queue ++ enqueue (item.u ∷ visited) item.depth (extract_links web base item.u)
  ]

  abbrev pub loop : ℕ → List Item → List Bytes → List Bytes → List Bytes
  loop = bfs_loop web base max_depth cancelled

  loop-stop :
      (n : ℕ) (item : Item) (queue : List Item) (visited found : List Bytes)
      → cancelled found (item ∷ queue) ≡ true
      → loop (suc n) (item ∷ queue) visited found ≡ found
  unfolding bfs_loop
  loop-stop n item queue visited found c = rw (c, bfs_loop) refl

  pub loop-skip :
      (n : ℕ) (item : Item) (queue : List Item) (visited found : List Bytes)
      → cancelled found (item ∷ queue) ≡ false
      → member item.u visited ≡ true
      → loop (suc n) (item ∷ queue) visited found ≡ loop (suc n) queue visited found
  unfolding bfs_loop
  loop-skip n item queue visited found c m = rw (c, m, bfs_loop) refl

  pub loop-visit :
      (n : ℕ) (item : Item) (queue : List Item) (visited found : List Bytes)
      → cancelled found (item ∷ queue) ≡ false
      → member item.u visited ≡ false
      → loop (suc n) (item ∷ queue) visited found
        ≡ loop n (next item queue visited) (item.u ∷ visited) (found ++ item.u ∷ [])
  unfolding bfs_loop
  loop-visit n item queue visited found c m = elim (Bool-cases (at_depth max_depth item.depth)) [
    | inl d ↦ rw (c, m, d, bfs_loop, next) refl
    | inr d ↦ rw (c, m, d, bfs_loop, next) refl
  ]

  collect_links-origin :
      (page : Bytes) (seen links : List Bytes)
      → All (λ l. is_same_origin web base l ≡ true) (collect_links web base page seen links)
  unfolding collect_links
  collect_links-origin page seen [] = tt
  collect_links-origin page seen (href ∷ more) = elim (Option-cases (resolve_url web page href)) [
    | inl e ↦ rw (e, collect_links) (collect_links-origin page seen more)
    | inr (r, e) ↦
        let a = collect_links-origin page (r ∷ seen) more in
        let b = collect_links-origin page seen more in rw (e, collect_links) (ground arith)
  ]

  extract_links-origin :
      (page : Bytes) → All (λ l. is_same_origin web base l ≡ true) (extract_links web base page)
  unfolding extract_links
  extract_links-origin page = elim (Option-cases (web.document page)) [
    | inl e ↦ rw (e, extract_links) tt
    | inr (doc, e) ↦ rw (e, extract_links) (collect_links-origin page [] (walk doc))
  ]

  abbrev OnSite : Item → Type 0
  OnSite i = on_site i.u ≡ true

  enqueue-OnSite :
      (visited : List Bytes) (depth : ℕ) (links : List Bytes)
      → All (λ l. is_same_origin web base l ≡ true) links
      → All OnSite (enqueue visited depth links)
  enqueue-OnSite visited depth [] h = tt
  enqueue-OnSite visited depth (l ∷ links) (s, h) =
      let k = enqueue-OnSite visited depth links h in
      elim (Bool-cases (member l visited)) [ inl e ↦ rw e k | inr e ↦ rw e (ground arith, k) ]

  next-deep :
      (item : Item) (queue : List Item) (visited : List Bytes)
      → at_depth max_depth item.depth ≡ true
      → next item queue visited ≡ queue
  next-deep item queue visited d = rw (d, next) refl

  next-more :
      (item : Item) (queue : List Item) (visited : List Bytes)
      → at_depth max_depth item.depth ≡ false
      → next item queue visited
        ≡ queue ++ enqueue (item.u ∷ visited) item.depth (extract_links web base item.u)
  next-more item queue visited d = rw (d, next) refl

  next-OnSite :
      (item : Item) (queue : List Item) (visited : List Bytes)
      → All OnSite queue
      → All OnSite (next item queue visited)
  next-OnSite item queue visited h = elim (Bool-cases (at_depth max_depth item.depth)) [
    | inl d ↦ subst (λ q. All OnSite q) (sym (next-deep item queue visited d)) h
    | inr d ↦
        subst (λ q. All OnSite q) (sym (next-more item queue visited d))
          (All-append OnSite queue
            (enqueue (item.u ∷ visited) item.depth (extract_links web base item.u)) h
            (enqueue-OnSite (item.u ∷ visited) item.depth (extract_links web base item.u)
              (extract_links-origin item.u)))
  ]

  -- What holds at the head of the loop.
  record IsState (queue : List Item) (visited found : List Bytes) : Type 0 where
    same : (k : Bytes) → member k visited ≡ member k found
    no_repetition : distinct bytes_eq found ≡ true
    found_on_site : All (λ u. on_site u ≡ true) found
    queue_on_site : All OnSite queue

  visit-IsState :
      (item : Item) (queue : List Item) (visited found : List Bytes)
      → IsState (item ∷ queue) visited found
      → member item.u visited ≡ false
      → IsState (next item queue visited) (item.u ∷ visited) (found ++ item.u ∷ [])
  visit-IsState item queue visited found s m = record {
    same = λ k. ground (arith, s.same k, any-append bytes_eq k found (item.u ∷ []));
    no_repetition =
        distinct-snoc bytes_eq bytes_eq_iff found item.u s.no_repetition (sym (s.same item.u) ∙ m);
    found_on_site =
        All-append (λ u. on_site u ≡ true) found (item.u ∷ []) s.found_on_site
          (s.queue_on_site.0, tt);
    queue_on_site = next-OnSite item queue visited s.queue_on_site.1;
  }

  -- No page twice, at most so many more than were found before, and only pages of the site.
  pub record IsCrawl (n : ℕ) (found result : List Bytes) : Type 0 where
    pub extended : (new : List Bytes) × (result ≡ found ++ new) × (length new ≤ n)
    pub no_repetition : distinct bytes_eq result ≡ true
    pub same_site : All (λ u. on_site u ≡ true) result

  stopped-IsCrawl :
      (n : ℕ) (queue : List Item) (visited found : List Bytes)
      → IsState queue visited found
      → IsCrawl n found found
  stopped-IsCrawl n queue visited found s = record {
    extended = ([], sym (append-nil found), omega arith);
    no_repetition = s.no_repetition;
    same_site = s.found_on_site;
  }

  bfs_loop-IsCrawl :
      (n : ℕ) (queue : List Item) (visited found : List Bytes)
      → IsState queue visited found
      → IsCrawl n found (loop n queue visited found)
  bfs_loop-IsCrawl zero queue visited found s =
      unfold bfs_loop in stopped-IsCrawl zero queue visited found s
  bfs_loop-IsCrawl (suc n) [] visited found s =
      unfold bfs_loop in stopped-IsCrawl (suc n) [] visited found s
  bfs_loop-IsCrawl (suc n) (item ∷ queue) visited found s =
      elim (Bool-cases (cancelled found (item ∷ queue))) [
        | inl c ↦
            rw (loop-stop n item queue visited found c)
              (stopped-IsCrawl (suc n) (item ∷ queue) visited found s)
        | inr c ↦ elim (Bool-cases (member item.u visited)) [
          | inl m ↦ rw (loop-skip n item queue visited found c m) (
              bfs_loop-IsCrawl (suc n) queue visited found (record {
                same = s.same;
                no_repetition = s.no_repetition;
                found_on_site = s.found_on_site;
                queue_on_site = s.queue_on_site.1;
              }))
          | inr m ↦
              let r =
                bfs_loop-IsCrawl n (next item queue visited) (item.u ∷ visited)
                  (found ++ item.u ∷ []) (visit-IsState item queue visited found s m) in
              let (new, e, b) = r.extended in
              rw (loop-visit n item queue visited found c m) (record {
                extended =
                    (item.u ∷ new, e ∙ append_assoc found (item.u ∷ []) new, omega (arith, b));
                no_repetition = r.no_repetition;
                same_site = r.same_site;
              })
        ]
      ]

  crawled : (n : ℕ) → IsCrawl n [] (loop n (record { u = web.text base; depth = 0 } ∷ []) [] [])
  crawled n = bfs_loop-IsCrawl n (record { u = web.text base; depth = 0 } ∷ []) [] [] (record {
    same = λ k. refl;
    no_repetition = refl;
    found_on_site = tt;
    queue_on_site = (rw (bytes_eq_refl (web.text base)) refl, tt);
  })

  -- Whenever the context is cancelled, a search with `MaxPages` above 0 ends with at most so many
  -- pages, no page twice, each of them the root or a page of the root's origin. A search with
  -- `MaxPages` 0, which has no limit, has after any number of visits found at most as many pages, no
  -- page twice and only such pages.
  pub bfs_crawl-IsCrawl :
      (visits max_pages : ℕ)
      → IsCrawl
          (room web base max_depth cancelled visits max_pages)
          []
          (bfs_crawl web base max_depth cancelled visits max_pages)
  unfolding bfs_crawl
  bfs_crawl-IsCrawl visits zero = crawled visits
  bfs_crawl-IsCrawl visits (suc n) = crawled (suc n)
