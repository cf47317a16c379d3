-- ===== src/Tests.antt =====
-- Concrete inputs for the theorems, and runs of the definitions.
mod Policies
mod Registries
mod Downloads
mod Styles
mod Flows
mod Retries
mod Transfers
mod Routing
mod Uploads
mod Preparing
mod Pools
mod Sessions
