-- ===== src/Kodi.antt =====
-- The Kodi client: src/core/kodi_client.cpp and .h, with src/core/kodi_json.cpp.
pub mod Reply
pub mod Listing
pub mod Playing
pub mod Target
pub mod Client
pub mod Requests
pub mod Queue
pub mod Notice
pub mod Call
pub mod Commands
pub mod Paging
pub mod Poll
pub mod Library
pub mod Loop
pub mod Sound
pub mod Routes
mod Examples
