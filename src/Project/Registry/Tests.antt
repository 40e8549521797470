-- ===== src/Project/Registry/Tests.antt =====
-- A registry with two projects.
use docsiq.Prelude.{◌≡◌, ◌≢◌, ap, arith, refl, true, none, some, List, [], ◌∷◌}
use docsiq.Prelude.Int.{pos}
use docsiq.Prelude.Text.{codes, bytes_eq}
use docsiq.Prelude.Space.{trim_space}
use docsiq.Project.Slug.{slug_valid, is_valid_slug}
use docsiq.Project.Registry.{Project, Table, get, get_by_remote, register, insert}
use docsiq.Project.Registry.Laws.{IsTable, register-IsTable}
use docsiq.Project.Registry.Later.{RegistryOp, registers, deletes, after_ops, get-register}

abbrev one : Project
one = record { slug = codes "a"; name = codes "A"; remote = codes "git@a"; created_at = pos 1 }

abbrev two : Project
two = record { slug = codes "b"; name = codes "B"; remote = codes "git@b"; created_at = pos 0 }

abbrev table : Table
table = one ∷ []

table-IsTable : IsTable table
unfolding is_valid_slug get get_by_remote slug_valid
table-IsTable = (refl, refl, refl, tt)

accepted : (register true (pos 5) table two).1 ≡ none
unfolding register insert is_valid_slug trim_space get get_by_remote slug_valid
accepted = refl

register-IsTable_example : IsTable (register true (pos 5) table two).0
register-IsTable_example = register-IsTable true (pos 5) table two table-IsTable

-- The other project goes and comes again.
abbrev later : List RegistryOp
later = deletes (codes "a") ∷ registers true (pos 6) one ∷ []

a-ne-b : codes "a" ≢ codes "b"
a-ne-b e = ground (arith, ap (λ s. bytes_eq s (codes "b")) e)

get-register_example :
    (q : Project) × (get (after_ops (register true (pos 5) table two).0 later) two.slug ≡ some q)
    × (get_by_remote (after_ops (register true (pos 5) table two).0 later) two.remote ≡ some q)
    × (q.slug ≡ two.slug)
    × (q.name ≡ two.name)
    × (q.remote ≡ two.remote)
get-register_example = get-register true (pos 5) table two later accepted (a-ne-b, (tt, tt))
