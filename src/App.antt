-- ===== src/App.antt =====
-- src/bin/Application.cpp and src/app: what the application does between the windows and the services.
pub mod Transport
pub mod Envelopes
pub mod Create
pub mod Startup
pub mod Submit
pub mod ChatList
pub mod Selection
