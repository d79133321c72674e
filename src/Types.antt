-- ===== src/Types.antt =====
-- The dataclasses and enums of types.py, a child for each of its parts.
mod Menu
mod Receipt
mod Stock
mod Pnl
mod Drawer
mod Margin
mod Tasks
mod Anomalies
mod Coverage
pub use Menu.*
pub use Receipt.*
pub use Stock.*
pub use Pnl.*
pub use Drawer.*
pub use Margin.*
pub use Tasks.*
pub use Anomalies.*
pub use Coverage.*
