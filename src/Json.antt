-- ===== src/Json.antt =====
-- The values that records hold and the operations of the language on them: JSON with `undefined`
-- for what is absent, JavaScript numbers, and objects with their keys in order.
mod Number
mod NumberLaws
mod Value
mod ValueLaws
mod Objects
unfoldable pub use Number.*
pub use NumberLaws.*
unfoldable pub use Value.*
pub use ValueLaws.*
unfoldable pub use Objects.*
