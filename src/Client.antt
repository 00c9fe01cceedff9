-- ===== src/Client.antt =====
-- The client (client/).
pub mod Route
pub mod Parse
pub mod Calls
