-- ===== src/Go.antt =====
-- What the program uses of Go's standard library: strings, net/textproto, net/url, strconv, and the
-- reads of bufio and io.
pub mod Strings
pub mod Url
pub mod Reader
pub mod Reading
pub mod FilePath
pub mod Replacing
