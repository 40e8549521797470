-- ===== src/Project/Registry/Order.antt =====
-- internal/project/registry.go: the order in which `List` gives the projects.
use docsiq.Prelude.{◌≡◌, refl, Bool, true, false, any, arith}
use docsiq.Prelude.Int.{ℤ, pos, negsuc}
use docsiq.Prelude.Sort.{bytes_lt-asym, is_sorted, any-sort, sort-is_sorted}
use docsiq.Project.Registry.{Project, Table, int_lt, older, list}

int_lt-asym : (a b : ℤ) → int_lt a b ≡ true → int_lt b a ≡ false
int_lt-asym (pos a) (pos b) h = ground arith
int_lt-asym (pos a) (negsuc b) h = cc
int_lt-asym (negsuc a) (pos b) h = refl
int_lt-asym (negsuc a) (negsuc b) h = ground arith

older-asym : (p q : Project) → older p q ≡ true → older q p ≡ false
older-asym p q h = ground (
  arith,
  int_lt-asym p.created_at q.created_at,
  int_lt-asym q.created_at p.created_at,
  bytes_lt-asym p.slug q.slug,
)

-- A test holds of one of the projects that `List` gives exactly if it holds of a row of the table;
-- and no project stands next before an older one.
pub list_lem :
    (test : Project → Bool) (t : Table)
    → (any test (list t) ≡ any test t) × (is_sorted older (list t) ≡ true)
unfolding list
list_lem test t = (any-sort older test t, sort-is_sorted older older-asym t)
