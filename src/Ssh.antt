-- ===== src/Ssh.antt =====
-- The SSH client (src/ssh/ssh2_client.rs). The session and its channel, which are libssh2's, are
-- what they answer: one answer for each call of them, in order.
pub mod Framing
pub mod Channel
pub mod Drain
pub mod Pty
pub mod KnownHosts
pub mod Connection
pub mod Transfer
pub mod Atomic
