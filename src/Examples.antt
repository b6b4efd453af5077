-- ===== src/Examples.antt =====
-- The examples of the repository, examples/.
pub mod Utf8
pub mod Wire
pub mod DigitalLocker
pub mod SimpleLogin
