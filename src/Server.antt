-- ===== src/Server.antt =====
-- internal/server: the handlers of the gRPC services, over any `Store`.
pub mod Status
pub mod Blobs
pub mod Missing
pub mod Resource
pub mod ByteStream
pub mod ActionCache
pub mod Operation
pub mod Execution
pub mod Tree
pub mod Operations
pub mod Waiting
pub mod Capabilities
