-- ===== src/Lib.antt =====
-- A speaker's firmware: services of one process that talk over an event bus, and their proofs.
--
-- The parts and how they interact. Services publish events to the event bus (src/core/EventBus.cpp),
-- whose worker hands them to the subscribers. The system manager (src/system/SystemManager.cpp)
-- subscribes to all of them and drives the device's state machine (src/system/StateMachine.cpp) and safe
-- mode (src/system/SafeMode.h); the watchdog (src/system/Watchdog.cpp) polls the services' health. Audio
-- arrives as datagrams (src/audio/AudioPacket.cpp, src/audio/AudioReceiver.cpp), waits in the jitter buffer
-- (src/audio/AudioBuffer.cpp) until it is due (src/audio/StreamSync.cpp) and is played
-- (src/audio/PlaybackManager.cpp). Commands (src/control/CommandRouter.cpp) are answered from the
-- history (src/control/CommandHistory.cpp) or validated (src/control/CommandValidator.cpp) and executed
-- (src/control/CommandExecutor.cpp), which changes the configuration (src/config/ConfigManager.cpp).
-- Pairing (src/pairing/PairingService.cpp) stores a streamer's identity in the configuration, and the
-- provisioning controller (src/pairing/ProvisioningController.cpp) starts and stops the onboarding
-- channels. The network manager (src/network/NetworkManager.cpp) tells of the uplink on the bus. The
-- amplifier manager (src/amplifier/AmplifierManager.cpp) polls the hardware, the status service
-- (src/status/StatusService.cpp) reports alerts, the updater (src/updater/UpdateManager.cpp) replaces the
-- program, the web interface shows a QR code (src/web/QrEncoder.cpp), and the delay line (src/dsp/Delay.h)
-- holds samples back. The streamer, the other end, keeps a registry of speakers, zones and the states that
-- they confirmed (streamer/src/group, streamer/src/state), sends them signed commands
-- (streamer/src/app/CommandGateway.cpp, streamer/src/control) and polls them, pairs speakers by itself
-- (streamer/src/provisioning) and sends audio in packets (streamer/src/send).
--
-- The files. Prelude: shared names, Boolean tests, lists over the native numbers, unsigned words and
-- signed integers. Core/Status, Core/Event and Core/Bus: src/core; Core/Bus/Steps has the worker, the
-- publishers and `stop` as sections under the queue's lock, in any order, and Core/Bus/Dispatch the calls of
-- the handlers. System/State, Machine, SafeMode, Manager and Watchdog: src/system. Audio/Wire, Buffer, Sync,
-- Playback and Receiver: src/audio. Config/Speaker, Json and Manager: src/config over
-- src/core/AtomicFile.cpp. Control/Command, History, Validator, Reply, Executor and Router: src/control.
-- Amplifier: src/amplifier/AmplifierManager.cpp. Pairing/Provisioning and Pairing/Service: src/pairing, with
-- the form of a streamer's id from src/identity/ApCredentials.cpp. Network: src/network/NetworkManager.cpp
-- and the hotspot's end in src/network/NmcliNetworkHal.cpp; Network/Onboarding has it with the provisioning
-- controller and the bus. Updater: src/updater. Status: src/status/StatusService.cpp. Dsp/Delay: src/dsp/Delay.h. Web/Galois,
-- ReedSolomon, Codewords, Matrix and Masking: src/web/QrEncoder.cpp, from its field to `encode`.
-- Streamer/Registry, Zones and Speakers: streamer/src/group and streamer/src/state, with
-- Streamer/Speakers/Confirm for a reported status. Streamer/Sending: streamer/src/send with
-- MemoryAudioSource.h. Streamer/Commands: CommandSigner, CommandClient, CommandGateway and the round of
-- MonitorService.h. Streamer/AutoPair: streamer/src/provisioning. Examples: each result at a concrete
-- input. A record has the fields of the source's class, and an operation has the name of the source's
-- function in snake case; a part of a long function stands under a name for what it does. The
-- subdirectories of a part hold its proofs.
--
-- Bounds. Counters and tokens that are 32 or 64 bits wide wrap around as in the source. The arithmetic of
-- doubles is a parameter (FloatOps); doubles are 64-bit patterns. Loops are over lists or a fixed number
-- of steps, as the 255 powers of the QR code's field, the at most 7 bits that fill a byte and the 10000
-- tries for the id of a zone, which the source bounds too. The columns of a QR matrix, two to a step, have
-- as many steps as columns. The sender has fuel for the blocks it sends, and more fuel than unread frames
-- is enough.
--
-- Parameters. Handlers of subscribers, the DSP hook, the output device, the amplifier's hardware, the
-- results of file operations and of network scans, the clock, the source of zone ids, what discovery finds,
-- the outcome of a pairing attempt, hashes, libsodium's signatures and sealed boxes, and the JSON library.
-- It prints a number that is not finite as null, and a configuration's file with one does not parse.
-- An exception of the JSON library is the missing result of `execute` and `handle`.
--
-- Not modelled. Sockets, threads other than the bus's worker, ALSA, GPIO, D-Bus, the text of JSON, the
-- logger, and services that only wrap such calls; filters and the limiter, which compute with doubles; of
-- the rest, the routes of the two web interfaces, the drawing of the QR code, the command server, and the
-- streamer's settings, discovery and construction (streamer/src/config, discovery, app/StreamerApp.cpp).
pub mod Prelude
pub mod Core
pub mod System
pub mod Audio
pub mod Dsp
pub mod Web
pub mod Config
pub mod Control
pub mod Amplifier
pub mod Pairing
pub mod Network
pub mod Updater
pub mod Status
pub mod Streamer
pub mod Examples
