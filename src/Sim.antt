-- ===== src/Sim.antt =====
-- The simulation of Zephyr's swap chains (src/zephyr_api_simulation).
pub mod Machine
pub mod Calls
pub mod Kernel
pub mod Probe
pub mod Main
pub mod Swap
pub mod Event
pub mod Sem
