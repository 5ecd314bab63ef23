-- ===== src/Race.antt =====
-- What the client works out of the race state: where a team may go, what to celebrate, and how the
-- race ended.
pub mod Accessibility
pub mod Moments
pub mod Result
pub mod Session
