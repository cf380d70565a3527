-- ===== src/Examples.antt =====
-- Concrete runs and tests: the theorems at inputs where their hypotheses hold.
mod Crypto
mod Storage
mod Auth
mod Service
mod Signer
mod Share
mod Listing
mod Transport
