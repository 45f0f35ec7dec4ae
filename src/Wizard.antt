-- ===== src/Wizard.antt =====
-- The setup wizard (wizard/src/main.rs): its locale, settings, keys and bookmark.
pub mod Settings
pub mod Script
pub mod Keys
pub mod Batch
pub mod Favorite
pub mod Bookmarks
pub mod Routes
pub mod Launch
pub mod Saved
pub mod Installed
