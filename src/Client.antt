-- ===== src/Client.antt =====
-- cmd/client/main.go: the client reads a script, sends its requests to the server, and reports what
-- differs from the script. A report has the number and the text of its line. unicode.ToUpper beyond
-- ASCII, the parser of URLs, and what comes back from the server are given.
pub mod Script
pub mod Requests
pub mod Lines
pub mod Steps
pub mod Passes
pub mod EndToEnd
mod Tests
