-- ===== src/Cas.antt =====
-- internal/cas: the interface `Store` of cas.go is `Cas.Interface`, with the laws that its clients
-- rely on; the implementation of memstore.go is `Cas.MemStore`, and `Cas.S3Store` is the one of cas.go
-- over a bucket of S3.
pub mod Reader
pub mod Interface
pub mod MemStore
pub mod S3
pub mod S3Store
