-- ===== src/Tests.antt =====
-- Runs of the model on concrete inputs: the samples, and the theorems applied to them.
mod Samples
mod Formats
mod Envelopes
mod Containers
mod Codes
mod Transports
mod RoundTrips
mod Stored
mod Lifecycles
mod Sharing
mod Tampering
mod Secrets
