-- ===== src/Congkong.antt =====
-- internal/congkong: what the server's answers mean. `Json` has a body as encoding/json reads it,
-- `Decode` fills the declared structs from it, `Class` has the names of the classes, and
-- `Classify` the decisions. The proofs are in the modules below those.
pub mod Json
pub mod Decode
pub mod Class
pub mod Classify
pub mod Ignores
