-- ===== src/Secure.antt =====
-- securebytes/securebytes.go, over an explicit store. A `*SecureBytes` is a handle, the number of a
-- cell. The operations are run one after the other; Mutex has the mutex of a container that several
-- goroutines share, under which that is what they are.
pub mod World
pub mod Container
pub mod Frame
pub mod Lifecycle
pub mod Filled
pub mod Returns
pub mod Vault
pub mod Refinement
pub mod Locking
pub mod Mutex
