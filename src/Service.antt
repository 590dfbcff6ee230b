-- ===== src/Service.antt =====
-- service.go: the container in Defs, injection into struct fields in Inject; what `Get`, `Set` and
-- `GetLogger` promise in Store, and what `Inject` does to a field in Tagged and
-- to a struct in Filling.
pub mod Defs
pub mod Store
pub mod Registry
pub mod Inject
pub mod Tagged
pub mod Filling
