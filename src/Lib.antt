-- ===== src/Lib.antt =====
-- The firmware of a water dispenser for animals (an ESP32 with ESP-IDF and FreeRTOS), from the C code
-- under main/.
--
-- How the parts work together. The infrared sensor (main/sensor/app_TOF.c) sees an animal, and
-- trackers that are heard over Bluetooth (main/ble/ble_tracker_id.c) tell which one is near. A
-- round of the operation task (main/opmode_task.c) every 100 ms finds the drink and its amount
-- from the load cell (main/sensor/app_HX711.c), shares it among the trackers, sends it, and drives
-- the pump (main/gpio/app_moter.c). Trackers that are connected (main/ble/ble_task.c) send their
-- motion points in packets (main/ble/ble_parse.c). All tasks set the flags of the LED register
-- (main/gpio/app_led.c) and of the fault code (main/mqtt/tx_mqtt.c). The button
-- (main/gpio/app_button.c) changes the mode.
--
-- Base: tests on numbers, lists, words of the C code with their wrap-around, bits and registers.
-- Float: C's float as a parameter; no law of its arithmetic is assumed.
-- Board: led_bit_*, the getters, water_fault_*, and the messages handed to mqtt_queue_send.
-- Board.Flags, Board.Report and Board.Sound are about them.
-- Tracker: Get_Tracker_Device, Tracker_waterintake_end, vTrackerCaptureTask; Tracker.Enter:
-- Tracker_In_ID, GetTracker_Id_Name and GetTracker_Id_active.
-- Motor: TPL0401_SetValue, start_motor_with_boost, TPL0401_init; Motor.Boost and Motor.Empty:
-- motor_boost_task; Motor.Usage: motor_used_timer_callback, motor_change, filter_change;
-- Motor.Pwm: set_motor_speed_percent.
-- Smart: Smart_Water, a function per state and per part of the body. Smart.Edges has its state
-- machine as a relation; Smart.Access and Smart.Watch are about the report of a change;
-- Smart.Drink, Smart.Phase, Smart.Session and Smart.Visit lead to a whole visit.
-- Opmode: Night_Mode, set_motor_speed, Opmode_Set, Opmode_task.
-- Loadcell: HX711_Sensing. Button: Button_task and its timer. Sensor: detect_task.
-- Led: LED_task, Breathing_LED, Breathing_Setup and set_rgb_len_no_Breathing.
-- Ble: the table of clients; Ble.Receive: BLE_Receive_data.
-- Wifi.Scan: remove_duplicate_best_rssi and wifi_scan_start of main/wifi/wifi_task.c; Wifi.Scan.Best is
-- their specification. Wifi.Link: wifi_event_handler, Wifi_Connect, Wifi_Disconnect, the retry timer,
-- and the wifi_prov command of main/ble/ble_parse.c.
-- App: main/crypto/ble_crypto.c; App.Seal, App.Command: the encryption and BLE_APP_Command of
-- main/ble/ble_parse.c; App.Transmit: the loop of ble_tx_processing_task. App.Laws is what mbedTLS and
-- cJSON are documented to do; the other modules of App are theorems. App.Command runs Wifi.Scan and
-- Wifi.Link.
-- Setting: main/setting_cmd.c on the bytes of a packet, and the calibration of main/sensor/app_HX711.c.
-- Mqtt: the diagnostics and health data of main/mqtt/tx_mqtt.c, read from the fault code of Board.
-- Nvs: main/flash/app_nvs.c over ESP-IDF's NVS as a parameter. Config: main/flash/app_config_flash.c;
-- Config.Saved is its task, Config.Start and Config.Loads the start, and Config.Reboot, Config.Again,
-- Config.Loss and Config.Reset put them together.
-- Examples: the theorems at concrete inputs.
--
-- State is passed on as a record; what the code reads from other tasks in a round (a weight, a
-- tick, the motor's current) is an argument of the round, and where it is read more than once each
-- read has a value of its own. A number of a C type is a natural number below the type's size; an
-- int is its bit pattern. Loops over a table are recursion on a list; the loops of the motor's
-- task take the number of their rounds, which the loop's bounds give, so nothing runs out of fuel.
-- Calls of timers, of the radio and of the message queue are logged, the latest first.
--
-- Not modelled: the text of the JSON messages, the messages from the server, the
-- connection to it, the firmware update, the command line, the drivers, and the copies of other projects' code under components/, managed_components/ and
-- main/vl53l0x/. A tracker's packet is taken as already split into the fields of its union. Two
-- tasks that write one variable at the same time are not modelled: a call is a single step.
pub mod Base
pub mod Float
pub mod Board
pub mod Tracker
pub mod Motor
pub mod Smart
pub mod Opmode
pub mod Loadcell
pub mod Ble
pub mod Button
pub mod Sensor
pub mod Led
mod Examples
pub mod Wifi
pub mod Mqtt
pub mod Nvs
pub mod Config
pub mod App
pub mod Setting
