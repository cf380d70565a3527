-- ===== src/Crypto.antt =====
-- pkg/crypto: the cipher that the package is given, and the modules that use it.
pub mod Cipher
pub mod KeyWrap
pub mod Password
pub mod Stream
pub mod Toy
