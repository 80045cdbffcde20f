-- ===== src/Ble/Tests.antt =====
-- Concrete frames for the theorems on Bluetooth provisioning.
