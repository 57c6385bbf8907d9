-- ===== src/Vm.antt =====
-- vm.c: page tables.
pub mod Walk
pub mod Map
