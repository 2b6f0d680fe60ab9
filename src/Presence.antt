-- ===== src/Presence.antt =====
-- Presence: the order of presence messages (Source/ARTPresenceMessage.m) and the map of the members
-- of a channel (Source/ARTPresenceMap.m).
pub mod Order
pub mod Map
