-- ===== src/Loyverse.antt =====
-- The client side of the till's API, src/tangerine/loyverse.
pub mod Store
