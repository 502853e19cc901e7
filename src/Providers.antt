-- ===== src/Providers.antt =====
-- pkg/provider and pkg/discovery: how nodes find each other through the services of clouds.
--
-- The services are parameters, by what they answer.
pub mod Addrs
pub mod Aws
pub mod Roles
pub mod DigitalOcean
mod Tests
