-- ===== src/Lib.antt =====
-- NightMare Network: a model of the ESP-NOW gateway, in src/Gateway and src/Network/EspNow, of the
-- files and the scheduler that a node runs on, in src/Core, and of the coordinator of its
-- connections, in src/Network.
--
-- A client announces itself with CONNECT, is challenged, proves that it has the network's key, gets a
-- session with a cid, and from then on sends encrypted frames that carry subscriptions and messages.
-- The parts, from the wire up:
--   Frame       src/Network/EspNow/NightMareEspNow/Frame.h, Frame.cpp: validateFrame, decodeFrame,
--               makeFrame, beaconFrame and the reading of beacons
--   Auth        src/Network/EspNow/NightMareEspNow/Auth.h, Auth.cpp: derive, authProof, sessionLmk
--   Topic       src/Gateway/Broker/Topic.h, Topic.cpp: topicMatchesPattern, isValidPublishTopic
--   Message     src/Gateway/Broker/Message.h, Message.cpp: Message and its encoding
--   Vault       the same files: MessageVault, the retained messages
--   Reassembly  src/Gateway/EspNow/Reassembly.h, Reassembly.cpp: ReassemblyTable
--   Device      src/Gateway/Broker/Device.h, Device.cpp: one session
--   Sessions    src/Gateway/EspNow/espDeviceManager.h, espDeviceManager.cpp: the table of sessions and
--               of handshakes; Sessions/Radio is its PeerOps
--   Broker      src/Gateway/EspNow/espBroker.h, espBroker.cpp: Broker/Sending and Broker/Handling
--   Storage     src/Core/Storage.cpp: files, with the write in place and the atomic write
--   Scheduler   src/Core/Scheduler.h, Scheduler.cpp: the jobs, their file and tick
--   Network     src/Network/NmConnection.h, NmConnection.cpp, NmRoutingPolicy.h: the coordinator that
--               chooses between MQTT and ESP-NOW; GatewayCandidate.cpp: the announced
--               gateway, with the reading of JSON as an argument
--   Examples    the code and the theorems on concrete values
-- Base holds what they share. The broker decodes a packet (Frame), asks the session table how to take
-- it (Sessions), and runs the handler, which changes one session (Device), puts fragments together
-- (Reassembly) and gives a whole message to the gateway through a hook. The scheduler keeps its jobs
-- in a file, which each change that has to last writes anew in place, not atomically: a write that fails
-- once the file is open loses what the file held. The node reads the jobs back when it starts. The
-- coordinator asks the services which connection is usable, switches to it, tells the owners, and
-- sends what was kept meanwhile.
--
-- State is passed on explicitly: an operation is a function from a record to a record and a result.
-- Numbers are natural, with the wrap-around of each C++ type written out. Bytes are lists of numbers,
-- characters among them. A pointer to a session is its MAC, a pointer into an array an index. One
-- reading of the clock serves a call.
--
-- Outside the sources, and so parameters: the peer table and the sending of ESP-NOW, which answer from
-- what was asked before; HMAC-SHA256 of mbedtls; the hardware's random numbers; the answers of the
-- flash; the two clocks; what a job that is run does; what the network
-- services report. The drivers of the connections and the owners that are told of one are arguments.
--
-- Loops are structural, but for two. The matching of levels has fuel, one more than the filter's
-- length, which is enough since each round shortens the filter; the search for a cid has fuel, one
-- more than there are sessions, which is enough since each round tries another cid.
--
-- Left out: logs, counters for telemetry, the smoothed signal and round-trip times, locks; of the
-- broker, the periodic process, the start and the stop; of the repository, the messages between
-- ESP-NOW and MQTT on the gateway, the client, WiFi, MQTT, HTTP, and the rest of src/Core.
pub mod Base
pub mod Frame
pub mod Topic
pub mod Message
pub mod Vault
pub mod Reassembly
pub mod Device
pub mod Sessions
pub mod Auth
pub mod Broker
pub mod Storage
pub mod Scheduler
pub mod Network
mod Examples
