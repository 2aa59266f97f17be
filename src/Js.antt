-- ===== src/Js.antt =====
-- What the sources use of the JavaScript runtime: numbers, dates, and JSON values.
pub mod Number
pub mod Date
pub mod Json
pub mod Map
pub mod Sort
