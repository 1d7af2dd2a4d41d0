-- ===== src/Examples.antt =====
-- Tests of the definitions on small inputs, and the theorems at concrete inputs.
pub mod Fields
pub mod Chains
pub mod Maps
pub mod Labels
pub mod Links
pub mod Menus
pub mod Moving
pub mod Placing
pub mod Sessions
pub mod Tables
pub mod Reading
