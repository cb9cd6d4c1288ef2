-- ===== src/Tests.antt =====
-- Runs of the modelled code on small inputs, and the theorems at inputs that meet their hypotheses.
mod World
mod Wire
mod Profiles
mod Writers
mod Descriptors
mod Clients
mod Openings
mod Outside
mod Proxies
mod Mutexes
mod Enclaves
mod Loops
mod CommandLines
mod Databases
mod Services
mod Connections
