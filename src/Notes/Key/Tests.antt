-- ===== src/Notes/Key/Tests.antt =====
-- Keys and paths at small inputs.
use docsiq.Prelude.{◌↔◌, ◌≡◌, ◌++◌, refl, ◌∷◌, none, some}
use docsiq.Prelude.FilePath.{file_join, is_local, abs, clean, slash}
use docsiq.Prelude.Split.{join_rest, join, split}
use docsiq.Prelude.Text.{Bytes, codes}
use docsiq.Notes.Key.{validate_key, resolve_path, KeyError, ok, err, PathError, md_suffix}
use docsiq.Notes.Key.Safe.{IsSafe, validate_key-IsSafe}
use docsiq.Notes.Key.Resolve.{resolve_path_lem}

abbrev wd : Bytes
wd = codes "srv"

dir_runs : abs (some (b'/' ∷ wd)) (codes "data/../notes") ≡ some (codes "/srv/notes")
unfolding abs clean file_join join split join_rest
dir_runs = refl

key_runs : validate_key (codes "team/plan") ≡ none
unfolding validate_key split
key_runs = refl

up_runs : validate_key (codes "a/../b") ≡ some KeyError.parent_segment
unfolding validate_key split
up_runs = refl

validate_key-IsSafe_example : (validate_key (codes "team/plan") ≡ none) ↔ IsSafe (codes "team/plan")
validate_key-IsSafe_example = validate_key-IsSafe (codes "team/plan")

resolve_path_lem_example :
    resolve_path (some (b'/' ∷ wd)) (codes "data/../notes") (codes "team/plan")
    ≡ elim (validate_key (codes "team/plan")) [
      | some e ↦ err (PathError.invalid_key e)
      | none ↦ ok (codes "/srv/notes" ++ b'/' ∷ (codes "team/plan" ++ md_suffix))
    ]
resolve_path_lem_example =
    resolve_path_lem wd (codes "data/../notes") (codes "team/plan") (codes "/srv/notes") dir_runs
      (λ e. cc)

-- With the root as the notes directory every valid key is refused: the containment test asks for
-- the prefix `//`.
root_refused : resolve_path (some (b'/' ∷ wd)) slash (codes "x") ≡ err PathError.escapes
unfolding resolve_path validate_key split abs clean is_local file_join join join_rest
root_refused = refl
