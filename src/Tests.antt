-- ===== src/Tests.antt =====
-- Runs of the models on concrete inputs.
pub mod Stores
pub mod Limits
pub mod OAuth
pub mod Service
pub mod Locks
pub mod Guards
pub mod Requests
pub mod Endpoints
pub mod DeviceFlow
pub mod Entrances
pub mod Administration
pub mod RedisCommands
pub mod RedisClients
