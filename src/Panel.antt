-- ===== src/Panel.antt =====
-- The search panel of docs/html/search/search.js, the object `SearchBox`.
pub mod State
pub mod SearchData
pub mod Layout
pub mod Query
pub mod Select
pub mod Init
pub mod Field
pub mod Timers
