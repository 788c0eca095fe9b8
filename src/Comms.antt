-- ===== src/Comms.antt =====
-- The communications app: comms/models.py, comms/services/notification.py, comms/tasks.py and
-- comms/utils.py.
pub mod Model
pub mod Phone
pub mod Delivery
pub mod Broadcast
pub mod Helpdesk
