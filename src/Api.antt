-- ===== src/Api.antt =====
-- internal/api: the responses of response.go and the handler of ingest_handler.go. What fiber has
-- parsed of a request is an argument of its handler.
pub mod Responses
pub mod Events
pub mod EventManagers
pub mod GroupingRules
pub mod Queries
pub mod Alerts
pub mod World
pub mod Server
pub mod Spares
pub mod Crud
pub mod Traffic
pub mod Accepted
mod Tests
