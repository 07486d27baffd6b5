-- ===== src/Sms.antt =====
-- src/ec200_sms.c: short messages.
pub mod Header
pub mod Inbox
pub mod RoundTrip
pub mod Replies
pub mod Printed
pub mod Collected
pub mod Listing
pub mod Sizes
pub mod Submit
pub mod Parse
pub mod Settings
pub mod Reports
