-- ===== src/Machinery.antt =====
-- The vendored packages that the components call, as interfaces.
pub mod StringSet
pub mod MeshApi
