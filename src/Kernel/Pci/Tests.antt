-- ===== src/Kernel/Pci/Tests.antt =====
-- A configuration address, and the search on a bus with one device.
