-- ===== src/Merkle.antt =====
-- crypto/merkle: the Merkle tree of a list of byte strings (tree.go, hash.go) and the proofs that
-- an item is a leaf of it (proof.go). SHA-256 is the parameter `sum` of every function.
mod Examples
pub mod Hash
pub mod Split
pub mod Tree
pub mod Iterative
pub mod Proof
