-- ===== src/Parser.antt =====
-- src/base/bano_parser.c: configuration files made of named structures of key and value pairs. A
-- position `s + i` with `n - i` bytes left is the list of those bytes; sizes and offsets are
-- numbers. `malloc` grants a number of requests and refuses all later ones: the code gives up at
-- the first refusal. Loops run on fuel, and `no_fuel` means that it ran out.
pub mod Token
pub mod Outcome
pub mod Structs
pub mod Files
pub mod Find
