-- ===== src/Os.antt =====
-- The interface to the system, and the monad of the code that calls it.
pub mod Asks
pub mod Kernel
pub mod Disk
pub mod Loud
pub mod Returns
mod Monad
pub use Asks.*
pub use Kernel.*
unfoldable pub use Monad.*
