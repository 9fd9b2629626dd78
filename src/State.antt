-- ===== src/State.antt =====
-- internal/state/owner.go: the owner of the tray's state. Its fields and its operations are in
-- State/Owner.antt, over the maps of State/Maps.antt; the other modules hold its lemmas.
pub mod Maps
pub mod Clone
pub mod Owner
pub mod Table
