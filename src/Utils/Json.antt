-- ===== src/Utils/Json.antt =====
-- The JSON lookups of uiot/utils/json_parser.c and json_token.c.
pub mod Scan
pub mod Lookup
pub mod Inside
pub mod Printed
pub mod Faults
