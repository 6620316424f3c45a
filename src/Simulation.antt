-- ===== src/Simulation.antt =====
-- Integrated_Networks_OS_Project/Simulacion: a client, a router (tenedor) and a drawing server that
-- talk through one shared buffer.
pub mod Buffer
pub mod Handler
pub mod Adapter
pub mod Threads
