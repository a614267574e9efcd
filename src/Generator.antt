-- ===== src/Generator.antt =====
-- The generator protoc-gen-urpc (urpc/generator), in its parts.
pub mod Model
pub mod Traits
pub mod Methods
pub mod Calls
pub mod Services
pub mod Files
pub mod Plugin
pub mod Braces
pub mod Balance
pub mod Namespaces
pub mod Names
pub mod Output
pub mod Plain
