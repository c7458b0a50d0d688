-- ===== src/Tests.antt =====
-- Runs of the model at concrete inputs, on a machine that keeps files and carries out every call.
mod Codec
mod World
mod Containers
mod Daemons
mod Files
mod Messages
mod Creation
mod Execs
mod Clients
mod Handshakes
mod Clones
