-- ===== src/Entity.antt =====
-- src/entity/mtp_object.c, src/entity/mtp_store.c and src/entity/mtp_device.c: the objects that a
-- device offers, the stores that hold them, and the device.
pub mod Code
pub mod Object
pub mod Store
pub mod Device
