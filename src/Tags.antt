-- ===== src/Tags.antt =====
-- config_tags.go: a new type for a registered struct, in which the tags of its fields are changed.
pub mod Modifiers
pub mod Types
pub mod Kinds
pub mod Shape
pub mod Prefixed
