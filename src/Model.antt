-- ===== src/Model.antt =====
-- Package `internal/model`: the entities, the DTOs and the validation of requests.
pub mod Value
pub mod Status
pub mod Entity
pub mod Dto
pub mod Validation
