-- ===== src/Network.antt =====
-- clonebox-core/src/network.rs: netlink messages, and the network of a container.
pub mod Words
pub mod Writer
pub mod Slices
pub mod Reader
pub mod Structs
pub mod Attributes
pub mod Messages
pub mod Requests
pub mod Nesting
pub mod Encoding
pub mod Veth
pub mod Parsing
pub mod Names
pub mod Sent
pub mod Connected
pub mod Expected
