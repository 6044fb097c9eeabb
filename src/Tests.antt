-- ===== src/Tests.antt =====
-- Runs of the models of smp/ on small inputs.
mod Wire
mod Protocol
mod Messages
mod Session
mod Dialling
mod Sharing
mod Sending
mod Subscribing
mod Asking
mod Keys
mod Addresses
mod Buddies
