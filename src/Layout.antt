-- ===== src/Layout.antt =====
-- The layout decisions of the user interface: src/ui/grid_occupancy.h, src/ui/dashboard_grid.cpp and
-- src/ui/virtual_list_window.h.
pub mod Grid
pub mod Window
mod Examples
