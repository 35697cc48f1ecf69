-- ===== src/Banking.antt =====
-- apps/banking-adapter-mock: the consumer of lead-service's events that plays the partner bank and
-- tells the applicants; with the shape guard of packages/common/src/events/lead-status.event.ts.
pub mod Messages
pub mod Funding
pub mod Notifications
pub mod Consumer
pub mod Projection
pub mod Redelivery
pub mod Services
pub mod Handoff
mod Examples
mod ServiceExamples
