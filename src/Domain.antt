-- ===== src/Domain.antt =====
-- The entities of internal/domain: events, alerts, event managers and grouping rules. Go's string
-- types (`Severity`, `Action`, `AlertType`, `AlertStatus`) stay texts, since a message or a row can
-- hold any text. A `time.Time` is its instant in nanoseconds, an integer.
mod Events
mod Alerts
mod EventManagers
mod GroupingRules
pub mod Validation
pub mod Window
mod Tests
unfoldable pub use Events.*
unfoldable pub use Alerts.*
unfoldable pub use EventManagers.*
unfoldable pub use GroupingRules.*
