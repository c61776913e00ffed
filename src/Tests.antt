-- ===== src/Tests.antt =====
-- Instances of the parameters, and the theorems at concrete inputs.
mod Machines
mod Maps
mod Cluster
mod Bindings
mod History
mod Admission
mod Reconcilers
mod Leader
mod CommandLine
mod Printed
mod Clients
mod Factories
mod Contexts
mod Routes
mod Memory
mod Shells
mod Controllers
