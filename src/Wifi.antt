-- ===== src/Wifi.antt =====
-- The Wi-Fi setup's decisions: src/core/wifi_reconnect_policy.h, src/core/pending_wifi_credentials.h
-- and src/core/wifi_credentials.h.
pub mod Policy
pub mod Pending
mod Examples
