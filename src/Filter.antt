-- ===== src/Filter.antt =====
-- internal/filter/matcher.go: topic patterns, globs, and the matcher that applies them.
pub mod Topic
pub mod Glob
pub mod Matcher
mod Tests
