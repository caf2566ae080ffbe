-- ===== src/Controller.antt =====
-- The web API of the administration pages (controller/).
pub mod Users
pub mod Vscode
pub mod Tokens
pub mod Login
