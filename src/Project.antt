-- ===== src/Project.antt =====
-- internal/project: slugs of projects and their registry.
pub mod Slug
pub mod Registry
