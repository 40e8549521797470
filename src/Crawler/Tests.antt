-- ===== src/Crawler/Tests.antt =====
-- A site of three pages, and a sitemap index that lists itself.
use docsiq.Crawler.Sitemaps.{unfinished, parse_sitemap}
use docsiq.Prelude.{◌≡◌, refl, true, false, none, some, [], ◌∷◌, if◌then◌else◌}
use docsiq.Prelude.Int.{pos}
use docsiq.Prelude.Text.{Bytes, codes, bytes_eq}
use docsiq.Crawler.{
  Web, Node, element, no_sibling, sibling, other, is_same_origin, resolve_url, collect_links,
  extract_links, walk, bfs_loop, bfs_crawl,
}
use docsiq.Crawler.{Options}
use docsiq.Crawler.{member}
use docsiq.Prelude.{length, ◌<◌, arith}
use docsiq.Crawler.Closure.{never, bfs_crawl-closed}
use docsiq.Crawler.Bfs.{IsCrawl, bfs_crawl-IsCrawl}
use docsiq.Crawler.Index.{AllUrls, parse_sitemap-unfinished, parse_sitemap-AllUrls}

abbrev link : Bytes → Node
link u = element (codes "a") ((codes "href", u) ∷ []) no_sibling

-- Every address is on the host "h"; "/" links to "/a" twice and to "/b", and "/a" back to "/".
abbrev site : Web
site = record {
  Url = Bytes;
  parse = λ s. some s;
  scheme = λ u. codes "http";
  host = λ u. codes "h";
  path = λ u. u;
  resolve_reference = λ b h. h;
  clear = λ u. u;
  text = λ u. u;
  lower = λ s. s;
  document = λ s.
      if bytes_eq s (codes "/")
      then some (
          other (
            sibling (link (codes "/a"))
              (sibling (link (codes "/b")) (sibling (link (codes "/a")) no_sibling))))
      else if bytes_eq s (codes "/a")
      then some (link (codes "/"))
      else none;
  body = λ s. some s;
  index = λ s. if bytes_eq s (codes "/i") then some (codes "/i" ∷ []) else none;
  url_set = λ s. some (codes "/a" ∷ codes "x" ∷ []);
  load = λ s. some s;
}

crawled :
    bfs_crawl site (codes "/") (pos 0) (λ f q. false) 0 9 ≡ codes "/" ∷ codes "/a" ∷ codes "/b" ∷ []
unfolding bfs_crawl bfs_loop extract_links collect_links walk resolve_url is_same_origin
crawled = refl

-- Without a limit.
unlimited :
    bfs_crawl site (codes "/") (pos 0) (λ f q. false) 5 0 ≡ codes "/" ∷ codes "/a" ∷ codes "/b" ∷ []
unfolding bfs_crawl bfs_loop extract_links collect_links walk resolve_url is_same_origin
unlimited = refl

bfs_crawl-IsCrawl_example :
    IsCrawl site
      (codes "/")
      (pos 0)
      (λ f q. false)
      2
      []
      (bfs_crawl site (codes "/") (pos 0) (λ f q. false) 0 2)
bfs_crawl-IsCrawl_example = bfs_crawl-IsCrawl site (codes "/") (pos 0) (λ f q. false) 0 2

parse_sitemap-unfinished_example : parse_sitemap site (codes "/") 5 (codes "/i") ≡ unfinished
parse_sitemap-unfinished_example =
    parse_sitemap-unfinished site (codes "/") 5 (codes "/i") (codes "/i") [] [] refl refl

parse_sitemap-AllUrls_example :
    AllUrls (is_same_origin site (codes "/")) (parse_sitemap site (codes "/") 5 (codes "/s"))
parse_sitemap-AllUrls_example = parse_sitemap-AllUrls site (codes "/") 5 (codes "/s")

abbrev options : Options
options = record { max_pages = pos 2; max_depth = pos 0; skip_sitemap = true }

three_found : length (bfs_crawl site (codes "/") (pos 0) (never site (codes "/")) 0 9) < 9
unfolding bfs_crawl bfs_loop extract_links collect_links walk resolve_url is_same_origin
three_found = omega arith

page_found :
    member (codes "/a") (bfs_crawl site (codes "/") (pos 0) (never site (codes "/")) 0 9) ≡ true
unfolding bfs_crawl bfs_loop extract_links collect_links walk resolve_url is_same_origin
page_found = refl

link_found : member (codes "/") (extract_links site (codes "/") (codes "/a")) ≡ true
unfolding extract_links collect_links walk resolve_url is_same_origin
link_found = refl

bfs_crawl-closed_example :
    member (codes "/") (bfs_crawl site (codes "/") (pos 0) (never site (codes "/")) 0 9) ≡ true
bfs_crawl-closed_example =
    bfs_crawl-closed site (codes "/") 0 9 (codes "/a") (codes "/") three_found page_found link_found
