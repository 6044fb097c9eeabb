-- ===== src/Wire.antt =====
-- smp/encoding.go: the primitives of the wire format. An Encoder appends to a buffer; a Decoder
-- reads a buffer from a position. A method that can fail is an operation on the object, and the
-- object afterwards is what the method made of it before the error.
pub mod Encoder
pub mod Decoder
pub mod Reads
pub mod Primitives
pub mod Consumes
pub mod Canonical
pub mod Fields
pub mod Exhausts
pub mod Bounds
