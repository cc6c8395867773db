-- ===== src/Service.antt =====
-- The programs' shells: crates/client/src/service/windows_service.rs (Helper), the service that runs the
-- client in the session of the user, and crates/server/src/service/menubar.rs (Menubar).
pub mod Helper
pub mod Menubar
