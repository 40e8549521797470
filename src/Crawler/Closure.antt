-- ===== src/Crawler/Closure.antt =====
-- A search that was not cut short has followed every link.
use docsiq.Prelude.{
  ℕ, zero, suc, ◌+◌, ◌<◌, ◌≡◌, inl, inr, refl, sym, ◌∙◌, ap, Bool, true, false, ◌||◌, List, [], ◌∷◌,
  ◌++◌, length, length-append, arith, Bool-cases,
}
use docsiq.Prelude.Distinct.{any-append}
use docsiq.Prelude.Int.{pos}
use docsiq.Prelude.Text.{Bytes, bytes_eq, bytes_eq_iff}
use docsiq.Crawler.{Web, Item, member, extract_links, enqueue, bfs_loop, bfs_crawl}
use docsiq.Crawler.Bfs.{loop-skip, loop-visit}

-- An address is in the queue.
abbrev queued : Bytes → List Item → Bool
queued l [] = false
queued l (i ∷ q) = bytes_eq l i.u || queued l q

queued-append : (l : Bytes) (p q : List Item) → queued l (p ++ q) ≡ (queued l p || queued l q)
queued-append l [] q = refl
queued-append l (i ∷ p) q = ground (arith, queued-append l p q)

queued-enqueue :
    (visited : List Bytes) (depth : ℕ) (links : List Bytes) (l : Bytes)
    → member l links ≡ true
    → (member l visited || queued l (enqueue visited depth links)) ≡ true
queued-enqueue visited depth [] l h = cc
queued-enqueue visited depth (k ∷ links) l h =
    ground (arith, queued-enqueue visited depth links l, bytes_eq_iff l k)

module _ (web : Web) (base : web.Url) where
  abbrev links : Bytes → List Bytes
  links = extract_links web base

  abbrev pub never : List Bytes → List Item → Bool
  never found queue = false

  -- Every link of what was found is visited or in the queue.
  record IsCovered (queue : List Item) (visited found : List Bytes) : Type 0 where
    same : (k : Bytes) → member k visited ≡ member k found
    covered :
        (u l : Bytes)
        → member u found ≡ true
        → member l (links u) ≡ true
        → (member l visited || queued l queue) ≡ true

  skip-IsCovered :
      (item : Item) (queue : List Item) (visited found : List Bytes)
      → member item.u visited ≡ true
      → IsCovered (item ∷ queue) visited found
      → IsCovered queue visited found
  skip-IsCovered item queue visited found m c = record {
    same = c.same;
    covered = λ u l h k. ground (arith, c.covered u l h k, bytes_eq_iff l item.u);
  }

  visit-IsCovered :
      (item : Item) (queue : List Item) (visited found : List Bytes)
      → IsCovered (item ∷ queue) visited found
      → IsCovered
          (queue ++ enqueue (item.u ∷ visited) item.depth (links item.u))
          (item.u ∷ visited)
          (found ++ item.u ∷ [])
  visit-IsCovered item queue visited found c = record {
    same = λ k. ground (arith, c.same k, any-append bytes_eq k found (item.u ∷ []));
    covered = λ u l h k.
        let e = queued-append l queue (enqueue (item.u ∷ visited) item.depth (links item.u)) in
        elim (Bool-cases (member u found)) [
          | inl f ↦ let d = c.covered u l f k in ground arith
          | inr f ↦
              let g : u ≡ item.u =
                ground (arith, any-append bytes_eq u found (item.u ∷ []), bytes_eq_iff u item.u) in
              let d =
                queued-enqueue (item.u ∷ visited) item.depth (links item.u) l
                  (ap (λ x. member l (links x)) (sym g) ∙ k) in
              ground arith
        ];
  }

  closed_from :
      (n : ℕ) (queue : List Item) (visited found : List Bytes) (u l : Bytes)
      → IsCovered queue visited found
      → length (bfs_loop web base (pos 0) never n queue visited found) < length found + n
      → member u (bfs_loop web base (pos 0) never n queue visited found) ≡ true
      → member l (links u) ≡ true
      → member l (bfs_loop web base (pos 0) never n queue visited found) ≡ true
  unfolding bfs_loop
  closed_from zero queue visited found u l c b h k = absurd (omega arith)
  closed_from (suc n) [] visited found u l c b h k = ground (arith, c.covered u l h k, c.same l)
  closed_from (suc n) (item ∷ queue) visited found u l c b h k =
      elim (Bool-cases (member item.u visited)) [
        | inl m ↦
            let e = loop-skip web base (pos 0) never n item queue visited found refl m in
            let r =
              closed_from (suc n) queue visited found u l
                (skip-IsCovered item queue visited found m c) (rw e at b) (rw e at h) k in
            rw e r
        | inr m ↦
            let e = loop-visit web base (pos 0) never n item queue visited found refl m in
            let r =
              closed_from n (queue ++ enqueue (item.u ∷ visited) item.depth (links item.u))
                (item.u ∷ visited) (found ++ item.u ∷ []) u l
                (visit-IsCovered item queue visited found c)
                (omega (arith, length-append found (item.u ∷ []), rw e at b)) (rw e at h) k in
            rw e r
      ]

  -- A search that is never cancelled, has no limit of depth and finds fewer than `max_pages` pages
  -- has found every link of every page that it found.
  pub bfs_crawl-closed :
      (visits max_pages : ℕ) (u l : Bytes)
      → length (bfs_crawl web base (pos 0) never visits max_pages) < max_pages
      → member u (bfs_crawl web base (pos 0) never visits max_pages) ≡ true
      → member l (extract_links web base u) ≡ true
      → member l (bfs_crawl web base (pos 0) never visits max_pages) ≡ true
  unfolding bfs_crawl
  bfs_crawl-closed visits zero u l b h k = absurd (omega arith)
  bfs_crawl-closed visits (suc n) u l b h k =
      closed_from (suc n) (record { u = web.text base; depth = 0 } ∷ []) [] [] u l
        (record { same = λ x. refl; covered = λ x y p q. cc }) (omega (arith, b)) h k
