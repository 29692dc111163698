-- ===== src/Domain/Machines.antt =====
-- mas/domain/machines.py: tools, sensors, work centers and the production line. `random.gauss(0, s)` is
-- the argument `gauss`, which takes the number of the draw within the call, and s.
pub mod Tool
pub mod Sensor
pub mod WorkCenter
pub mod States
pub mod Line
pub mod Fleet
