-- ===== src/Memory.antt =====
-- The in-memory stores of internal/store/memory. Each method holds the store's mutex from its
-- first line to its last, so it is one step, a function of the store's state. The methods copy what they
-- take and return, and no stored value is ever changed in place, so values stand for pointers.
pub mod States
pub mod Alerts
pub mod EventManagers
pub mod GroupingRules
mod Tests
