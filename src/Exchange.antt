-- ===== src/Exchange.antt =====
-- A target and a data loader together: what one sends, the other receives.
pub mod Agreement
pub mod Statuses
pub mod Aborts
pub mod Requests
pub mod Initialization
pub mod Ports
pub mod Loads
