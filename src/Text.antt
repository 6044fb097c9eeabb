-- ===== src/Text.antt =====
-- What smp/queue_uri.go uses of Go's packages strings, strconv, encoding/base64 and net/url. An error
-- is `none`: the caller puts its text behind its own error variable.
pub mod Strings
pub mod Plain
pub mod Numbers
pub mod Base64
pub mod Query
pub mod Hex
