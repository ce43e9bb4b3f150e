-- ===== src/Tests.antt =====
-- Runs of the code on small inputs, and the theorems at concrete inputs.
mod Parser
mod Cipher
mod Strings
mod Dict
mod Message
mod Items
mod Config
mod Timers
mod Network
mod Safe
mod Pages
mod Camera
mod Sms
mod Program
mod Sockets
mod Setup
