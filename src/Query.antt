-- ===== src/Query.antt =====
-- src/planning/hive_query_cache.cpp and src/catalog/scan_filter_equality.cpp: what a statement keeps
-- while it is planned.
pub mod Listings
pub mod Listed
pub mod NameFilter
