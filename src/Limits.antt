-- ===== src/Limits.antt =====
-- The in-memory guards of the portal: src/agentit/portal/rate_limit.py (Limits/Window) and
-- src/agentit/interfaces/breakers.py (Limits/Breaker).
pub mod Window
pub mod Breaker
pub mod Hits
pub mod Timely
