-- ===== src/Json.antt =====
-- The JSON writer of src/lib/json.c and the field reader of src/lib/json_extract.c. A string of C is
-- the list of its bytes before the NUL.
pub mod Writer
pub mod Extract
pub mod Numbers
pub mod Decode
pub mod Prints
pub mod Objects
pub mod Words
pub mod Sizes
pub mod RoundTrip
pub mod Skips
pub mod Passes
pub mod Fields
mod Tests
