-- ===== src/Crawler/Index.antt =====
-- Sitemaps: what they list is on the site, and an index that lists itself is never finished.
use docsiq.Crawler.Sitemaps.{
  Sitemap, urls, failed, unfinished, collect, parse_url_set, parse_sitemap,
}
use docsiq.Prelude.{
  ℕ, zero, suc, ◌≡◌, refl, Bool, true, some, List, [], ◌∷◌, ◌++◌, filter, arith, Bool-cases,
  Option-cases, inl, inr, All, All-append, List-cases, ap, sym, ◌∙◌,
}
use docsiq.Prelude.Text.{Bytes}
use docsiq.Crawler.{Web, is_same_origin}

-- One location that is not finished makes the whole index unfinished.
collect-unfinished :
    (f : Bytes → Sitemap) (before : List Bytes) (loc : Bytes) (after : List Bytes)
    → f loc ≡ unfinished
    → collect f (before ++ loc ∷ after) ≡ unfinished
unfolding collect
collect-unfinished f [] loc after h = rw (h, collect) refl
collect-unfinished f (x ∷ before) loc after h =
    let k = collect-unfinished f before loc after h in ground arith

parse_sitemap-index :
    (web : Web) (base : web.Url) (depth : ℕ) (url : Bytes) {content loc : Bytes} {locs : List Bytes}
    → web.body url ≡ some content
    → web.index content ≡ some (loc ∷ locs)
    → parse_sitemap web base (suc depth) url ≡ collect (parse_sitemap web base depth) (loc ∷ locs)
unfolding parse_sitemap
parse_sitemap-index web base depth url b i = rw (b, i, parse_sitemap) refl

-- An index that lists its own address has no result: `parseSitemap` calls itself on that address
-- again, to any depth.
pub parse_sitemap-unfinished :
    (web : Web) (base : web.Url) (depth : ℕ) (url content : Bytes) (before after : List Bytes)
    → web.body url ≡ some content
    → web.index content ≡ some (before ++ url ∷ after)
    → parse_sitemap web base depth url ≡ unfinished
parse_sitemap-unfinished web base zero url content before after b i = unfold parse_sitemap in refl
parse_sitemap-unfinished web base (suc n) url content before after b i =
    let again = parse_sitemap-unfinished web base n url content before after b i in
    let locs : List Bytes = before ++ url ∷ after in
    elim (List-cases locs) [
      | inl e ↦ absurd (ne_nil before url after e)
      | inr (x, xs, e) ↦
          parse_sitemap-index web base n url b (i ∙ ap some e)
          ∙ ap (collect (parse_sitemap web base n)) (sym e)
          ∙ collect-unfinished (parse_sitemap web base n) before url after again
    ]
  where
    ne_nil : (p : List Bytes) (x : Bytes) (q : List Bytes) → (p ++ x ∷ q ≡ []) → ⊥
    ne_nil [] x q e = cc
    ne_nil (y ∷ p) x q e = cc

filter-All : (p : Bytes → Bool) (xs : List Bytes) → All (λ x. p x ≡ true) (filter p xs)
filter-All p [] = tt
filter-All p (x ∷ xs) = elim (Bool-cases (p x)) [
  | inl e ↦ rw e (e, filter-All p xs)
  | inr e ↦ rw e (filter-All p xs)
]

-- Every location of a sitemap that gives locations satisfies a test.
abbrev pub AllUrls : (Bytes → Bool) → Sitemap → Type 0
AllUrls p (urls us) = All (λ u. p u ≡ true) us
AllUrls p _ = Unit

collect-AllUrls :
    (p : Bytes → Bool) (f : Bytes → Sitemap) (locs : List Bytes)
    → ((l : Bytes) → AllUrls p (f l))
    → AllUrls p (collect f locs)
unfolding collect
collect-AllUrls p f [] h = tt
collect-AllUrls p f (loc ∷ locs) h =
    join_urls (f loc) (collect f locs) (h loc) (collect-AllUrls p f locs h)
  where
    join_urls :
        (a b : Sitemap)
        → AllUrls p a
        → AllUrls p b
        → AllUrls p (elim a [
          | unfinished ↦ unfinished
          | failed ↦ b
          | urls us ↦ elim b [
            | unfinished ↦ unfinished
            | failed ↦ failed
            | urls vs ↦ urls (us ++ vs)
          ]
        ])
    join_urls unfinished b x y = tt
    join_urls failed b x y = y
    join_urls (urls us) unfinished x y = tt
    join_urls (urls us) failed x y = tt
    join_urls (urls us) (urls vs) x y = All-append (λ u. p u ≡ true) us vs x y

parse_url_set-AllUrls :
    (web : Web) (base : web.Url) (content : Bytes)
    → AllUrls (is_same_origin web base) (parse_url_set web base content)
unfolding parse_url_set
parse_url_set-AllUrls web base content = elim (Option-cases (web.url_set content)) [
  | inl e ↦ rw (e, parse_url_set) tt
  | inr (locs, e) ↦ rw (e, parse_url_set) (filter-All (is_same_origin web base) locs)
]

-- Every page that a sitemap lists, through any indexes, is of the root's origin.
pub parse_sitemap-AllUrls :
    (web : Web) (base : web.Url) (depth : ℕ) (url : Bytes)
    → AllUrls (is_same_origin web base) (parse_sitemap web base depth url)
unfolding parse_sitemap
parse_sitemap-AllUrls web base zero url = tt
parse_sitemap-AllUrls web base (suc n) url = elim (Option-cases (web.body url)) [
  | inl e ↦ rw (e, parse_sitemap) tt
  | inr (content, e) ↦ elim (Option-cases (web.index content)) [
    | inl i ↦ rw (e, i, parse_sitemap) (parse_url_set-AllUrls web base content)
    | inr (locs, i) ↦ elim (List-cases locs) [
      | inl z ↦
          let j = i ∙ ap some z in rw (e, j, parse_sitemap) (parse_url_set-AllUrls web base content)
      | inr (x, xs, z) ↦ rw (parse_sitemap-index web base n url e (i ∙ ap some z)) (
          collect-AllUrls (is_same_origin web base) (parse_sitemap web base n) (x ∷ xs)
            (parse_sitemap-AllUrls web base n))
    ]
  ]
]
