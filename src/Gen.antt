-- ===== src/Gen.antt =====
-- cmd/gen/main.go: the generator of the scripts of the client. A draw is a number, of which
-- `rand.IntN(n)` takes the remainder; the generator ends with none if the draws run out. The text is
-- the list of its bytes.
pub mod Draws
pub mod Range
pub mod Script
pub mod Valid
pub mod Ops
pub mod Within
pub mod Successor
pub mod Exact
mod Tests
