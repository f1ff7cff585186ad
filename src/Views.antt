-- ===== src/Views.antt =====
-- Bodies of Glue views and the names of tables in them (src/catalog/glue_view_names.cpp,
-- src/catalog/glue_view.cpp).
pub mod Body
pub mod Walker
pub mod Holds
pub mod Visited
pub mod Input
pub mod Total
pub mod Names
pub mod Reading
pub mod Same
pub mod Any
pub mod Collected
pub mod Stored
pub mod Read
