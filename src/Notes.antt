-- ===== src/Notes.antt =====
-- internal/notes: the disk-backed notes of a project.
pub mod Frontmatter
pub mod Key
pub mod Files
pub mod Links
pub mod Graph
pub mod History
