-- ===== src/Lib.antt =====
-- SDK-Linux runs iFLYOS, a closed voice assistant, on a Raspberry Pi. Its own code is a library for
-- messages between processes (IFLYOSInterface), a process that starts and stops iFLYOS and passes the
-- messages on (IFLYOSUmbrella), and a process with the microphone, the keys, the network and the sounds
-- (MicAgent). Each process has one datagram socket. A message is an event's name, a blank and a text.
-- The processes send to the umbrella, which keeps a table of receivers for each event; names that
-- begin with E go to the receivers, all others to iFLYOS.
--
-- Prelude has the shared helpers: tests on numbers, lists over the native numbers, integers, bytes
-- and strings, sorted sets and dictionaries.
-- Ipc models IFLYOSInterface/src/IFLYOSInterface.cpp with the names of
-- IFLYOSInterface/include/IFLYOSInterface.h. A process's static variables are the record Ipc.State.Ipc;
-- `sendto`, `socket`, `bind` and `recvfrom` are arguments. Ipc.Subscriptions has the table of receivers
-- as an element of a quotient, which forgets the order in which the registrations came.
-- ThreadPool models IFLYOSInterface/src/IFLYOSThreadPool.cpp and its header: each stretch under the
-- lock is one step, with the `notify` behind it, and a schedule is a list of steps; a thread at the
-- condition variable is asleep until a `notify` or by itself it wakes. ThreadPool.Executor has the pool of one thread
-- under a process, over the interface `Client`, which Umbrella.Pool and Agent.Pool fill for the two
-- processes that have such a pool; ThreadPool.Refinement and ThreadPool.Turns relate it to a queue.
-- Umbrella models IFLYOSUmbrella/IFLYOSUmbrella.cpp on top of Ipc; `fork` and the end of the child are
-- arguments of the steps. Umbrella.Handlers and Umbrella.Table have its two tables under every step,
-- Umbrella.Delivery and Umbrella.Subscribers what becomes of an event, and of a sequence of them.
-- SysKey models MicAgent/syskey.cpp, NetworkMonitor models MicAgent/NetworkMonitor.cpp.
-- Player models MicAgent/PCMPlayer.cpp: the sounds in memory and the callback of the stream. Capture
-- models MicAgent/tdmin_interface.c: what ALSA and `malloc` return are arguments. Recorder models
-- MicAgent/Recorder.cpp on top of Capture: a run of its task is two steps.
-- Http models MicAgent/jnh.h, the request with which NetworkMonitor sets the clock and tests the
-- connection: the answers of the kernel are arguments, one for each call and one list of rounds for the
-- two loops that read the response.
-- Agent models MicAgent/MicAgent.cpp on top of them: the handlers change a record of the static
-- variables, calls to the outside are recorded in it, and the executor's queue is part of it.
-- Agent.Main has the registration of the handlers and `main` from its start to its end, Agent.Steps the
-- steps of the whole process, Agent.Sounds and Agent.Session dialogs with the sound that is recorded.
-- NetworkSetter models MicAgent/NetworkSetter.cpp on top of Recorder and NetworkMonitor.
-- System puts Agent and Umbrella together, as the messages of the one are received by the other: Keys
-- and Restart from a key to the iFLYOS process, Network from the checks of the network to it, Told and Events from
-- the messages of iFLYOS to the handlers of MicAgent.
--
-- Fuel: IFLYOS_InterfaceGetLines runs on the length of the text and one more, each round being past
-- one line feed; the wait for the network runs on thirteen rounds, as the count passes 60 then; a file
-- is read in two rounds, as one read gives all that is asked for. The loops that wait for a server, a
-- key or a packet run on the list of what they are given, and are left waiting at its end.
-- `size_t` has 32 bits. `char` has no sign, as on ARM.
--
-- Bounds that are taken for granted: `recvfrom` leaves at most 4095 bytes, so the functions of the
-- receiver threads stand for the program on buffers of at most that length; a file that PCMPlayer
-- caches is shorter than 2^31 - 1 bytes, as its size is an `int`; and the milliseconds that jnh.h
-- makes of the monotonic clock stay below 2^31, which is so for the first 24 days after a boot, as
-- `long` has 32 bits, while a limit of time times 1000 stays below 2^31 too.
--
-- Not modelled: what is printed, the time that sleeps take, memory that runs out in C++, undefined
-- results of `atoi` out of range, the child's side of `fork` behind its first call, the keyword
-- detector of MicAgent, the scripts of patchFiles, and the libraries whose headers MicAgent holds
-- (quiet, snowboy, CAE).
pub mod Prelude
pub mod Ipc
pub mod ThreadPool
pub mod Umbrella
pub mod SysKey
pub mod NetworkMonitor
pub mod Player
pub mod Capture
pub mod Recorder
pub mod Http
pub mod NetworkSetter
pub mod Agent
pub mod System
