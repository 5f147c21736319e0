-- ===== src/Shim.antt =====
-- The fake browser of js/hybrid-fake-dom.js, one module for each of its parts.
pub mod Base64
pub mod Utf8
pub mod Xhr
pub mod Timers
pub mod SafeProxy
pub mod Window
pub mod Elements
pub mod Random
pub mod Host
pub mod Document
pub mod Canvas
pub mod Cookies
pub mod Events
pub mod Storage
pub mod Params
pub mod Headers
