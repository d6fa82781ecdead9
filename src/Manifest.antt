-- ===== src/Manifest.antt =====
-- pipeline/release/release-manifest.mjs: the checks of the records and indexes of a release.
pub mod Checked
pub mod Shapes
pub mod Record
pub mod Vetted
pub mod Tree
pub mod Paired
pub mod Same
pub mod Union
pub mod Backed
pub mod Runtime
pub mod Indexes
pub mod Build
pub mod Pinned
pub mod Vouched
pub mod Hosted
mod Tests
mod Files
mod Site
