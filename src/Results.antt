-- ===== src/Results.antt =====
-- The search results page of docs/html/search/search.js.
pub mod Walk
pub mod Page
pub mod Search
pub mod Keys
pub mod Nav
pub mod Build
pub mod NavChild
