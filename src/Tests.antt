-- ===== src/Tests.antt =====
-- The theorems at concrete inputs: a trip to a Tier 2 city under Rev 4.
pub mod Trip
pub mod Policy
pub mod Claims
pub mod Approvals
pub mod Desk
pub mod Trips
pub mod Inbox
pub mod Routing
pub mod Evidence
pub mod Settled
pub mod Built
pub mod Uploads
pub mod Listing
pub mod Drafted
