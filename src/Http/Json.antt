-- ===== src/Http/Json.antt =====
-- The descriptions of the server in JSON: the text that each `send_..._JSON` writes.
pub mod Text
pub mod Clients
pub mod Program
pub mod Controls
pub mod Output
pub mod Input
pub mod Reader
pub mod Strings
pub mod Parts
pub mod Members
pub mod Menus
pub mod Possible
pub mod Described
pub mod Resolutions
pub mod Shown
pub mod Formats
pub mod Whole
pub mod Outputs
pub mod Limit
pub mod Documents
pub mod Tests
