-- ===== src/L0.antt =====
-- src/l0: the adapters behind the ports that the other layers use.
pub mod RedisCounter
pub mod Tables
pub mod Actions
