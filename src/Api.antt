-- ===== src/Api.antt =====
-- The HTTP layer: access checks, status codes and the endpoints that change state.
pub mod Auth
pub mod Errors
pub mod Middleware
pub mod Http
pub mod Reservations
pub mod Tokens
pub mod Agents
pub mod Pairing
pub mod Hosts
pub mod Login
pub mod Mock
pub mod SignIn
pub mod Pages
pub mod Queries
pub mod Requests
pub mod Schemas
pub mod Single
pub mod Accounts
mod Examples
mod ClientExamples
mod StackExamples
