-- ===== src/Dashboard.antt =====
-- frontend/src/main.jsx, `App`: the state of the dashboard and the functions that change it.
pub mod Series
pub mod Settings
pub mod Drawer
pub mod Summary
pub mod Account
pub mod Watchlist
mod Tests
