-- ===== src/Gui.antt =====
-- internal/gui: the parts of the operator's window that decide something.
pub mod Signal
pub mod LogRing
pub mod Catalog
pub mod Core
pub mod CfgWrite
pub mod Mask
pub mod Wizard
pub mod Apply
pub mod Augment
pub mod Body
pub mod Server
pub mod Routes
pub mod Hub
pub mod Save
