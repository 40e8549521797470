-- ===== src/Notes/History/Tests.antt =====
-- An author with a line break, and a subject with one.
use docsiq.Prelude.{◌≡◌, refl, true, [], ◌∷◌, ◌++◌, ◌+◌, ◌*◌, ◌≤◌, length}
use docsiq.Prelude.Text.{Bytes, codes}
use docsiq.Notes.History.{max_commit_msg_bytes, truncate_for_commit, build_commit_message}
use docsiq.Notes.History.Trailer.{is_one_line, build_commit_message-is_one_line}

build_commit_message-is_one_line_example :
    ((line : Bytes) × (build_commit_message
          (λ s. s)
          (codes "note: a")
          (codes "ann\nSigned-off-by: bob")
        ≡ truncate_for_commit (codes "note: a") ++ b'\n' ∷ b'\n' ∷ line)
      × (is_one_line line ≡ true))
    × (length (build_commit_message (λ s. s) (codes "note: a") (codes "ann\nSigned-off-by: bob"))
        ≤ 3 * max_commit_msg_bytes + 36)
build_commit_message-is_one_line_example =
    build_commit_message-is_one_line (λ s. s) (codes "note: a") (codes "ann\nSigned-off-by: bob")
      (λ e. cc)

-- The subject keeps its line breaks: it comes from a note's key, which can hold some.
subject_lines :
    build_commit_message (λ s. s) (codes "note: a\n\nSigned-off-by: bob") []
    ≡ codes "note: a\n\nSigned-off-by: bob"
unfolding build_commit_message truncate_for_commit
subject_lines = refl
