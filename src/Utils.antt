-- ===== src/Utils.antt =====
-- The utilities of uiot/utils.
pub mod LinkedList
pub mod Json
