-- ===== src/Apk.antt =====
-- The reader of an APK's binary manifest: backend/internal/httpapi/apk_manifest.go. `Bytes` has the
-- slices, `Strings` the strings of the pool, `Manifest` the chunks; the other modules prove what
-- they are named for.
pub mod Bytes
pub mod Strings
pub mod Manifest
pub mod Safe
pub mod NoPanic
pub mod Pool
pub mod Attributes
pub mod Chunks
pub mod RoundTrip
pub mod Units
pub mod Sample
pub mod Tests
