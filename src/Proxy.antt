-- ===== src/Proxy.antt =====
-- The idle proxy.
pub mod Json
pub mod Text
pub mod World
pub mod Config
pub mod Kubernetes
pub mod Backend
pub mod Ready
pub mod Controller
pub mod Sessions
pub mod Main
pub mod Ends
pub mod Evidence
pub mod ApiServer
pub mod Hoare
pub mod Frame
pub mod Safety
mod Scenarios
