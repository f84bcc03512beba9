-- ===== src/Strconv.antt =====
-- What the program uses of Go's strconv and fmt for numbers: printing in a base (`%d`, `%x`,
-- `FormatUint`) and `ParseUint`, over texts as lists of bytes.
pub mod Digits
pub mod Print
pub mod Parse
pub mod Quote
pub mod RoundTrip
