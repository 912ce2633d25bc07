-- ===== src/Network.antt =====
-- The two ends of the wire, include/network/: the packet capture and the UDP sender.
pub mod Capturer
pub mod Sender
