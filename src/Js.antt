-- ===== src/Js.antt =====
-- What the JavaScript of js/ uses of its language: text and plain objects.
pub mod Text
pub mod Object
