-- ===== src/Wifi.antt =====
-- Wi-Fi (main/wifi/wifi_task.c): the search for access points, and the connection with its retries.
pub mod Scan
pub mod Link
