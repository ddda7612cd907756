-- ===== src/Storage.antt =====
-- storage/: the documents in MongoDB. The parts of the package are the modules below.
pub mod Local
pub mod Access
pub mod Driver
pub mod Versioned
pub mod Documents
pub mod Query
pub mod Listing
pub mod References
pub mod Volumes
