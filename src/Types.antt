-- ===== src/Types.antt =====
-- The data of src/lib.rs and laqista-core/src/lib.rs, the messages of proto/laqista.proto, the
-- errors of src/error.rs, and the conversions between data and messages.
mod Errors
mod Messages
mod Infos
pub mod Convert
pub mod RoundTrip
unfoldable pub use Errors.*
pub use Messages.*
pub use Infos.*
