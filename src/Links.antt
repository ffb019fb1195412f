-- ===== src/Links.antt =====
-- Doubly linked nodes in memory, as c++/utils/cache keeps them: the fields `pred` and `next` of the
-- node at each address, and whether there is a node. `nullptr` is 0. An access to an address that
-- holds no node gives `none`.
mod Chains
mod Relink
mod Splice
pub use Chains.*
pub use Relink.*
pub use Splice.*
mod Memory
unfoldable pub use Memory.*
