-- ===== src/Slardar.antt =====
-- The page monitor js/browser.sg.js, which the signer loads beside the fake browser.
pub mod Util
pub mod Client
pub mod Batch
pub mod Patch
pub mod Subject
pub mod Agent
pub mod Sample
pub mod Route
pub mod Apdex
pub mod Session
pub mod Settings
pub mod Loader
pub mod Merge
pub mod Commands
pub mod Context
pub mod Visitor
pub mod Precollect
