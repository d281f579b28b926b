-- ===== src/Releases.antt =====
-- The releases of the clients: backend/internal/store/releases.go,
-- backend/internal/httpapi/updates.go and backend/internal/httpapi/admin_releases.go. `Names` has
-- the normalisation of the words of a request, `Types` the rows, `Rows` and `Store` the methods of
-- the store, `Manifest` and `Load` the answer to an update request, `Paths` and `Upload` an upload;
-- the other modules prove what they are named for.
pub mod Names
pub mod FilePath
pub mod Types
pub mod Words
pub mod Rows
pub mod Store
pub mod Places
pub mod Invariant
pub mod History
pub mod Served
pub mod Published
pub mod NoDraft
pub mod Manifest
pub mod Load
pub mod Paths
pub mod Elements
pub mod Upload
pub mod NewRow
pub mod Uploaded
pub mod Tidy
pub mod FileName
pub mod Placed
pub mod Offered
pub mod Coherent
pub mod Newest
pub mod Tests
pub mod UploadTests
