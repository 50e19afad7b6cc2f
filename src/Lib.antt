-- ===== src/Lib.antt =====
-- The Tuya daemons: a model of the two daemons of this repository in full, and what is shown of
-- them.
--
-- tuya_daemon/ is a daemon for a PC. It parses its command line (args.c), may become a background
-- process (become_daemon.c), connects to the Tuya cloud, and reports the time every ten seconds
-- (main.c, connection.c); the cloud may set the format of the time.
-- openwrt/tuya_daemon/src/ is the daemon of an OpenWrt package. It reads its options from UCI
-- (args.c), connects to the cloud and to ubus (connection.c), and reports the memory of the router
-- every ten seconds (send_info.c, main.c); the cloud may ask for the list of the connected devices
-- and may turn a pin of a device on or off, for which the daemon calls a ubus service.
-- Both stop on SIGINT and SIGTERM (signals.c, main.c).
--
-- The modules:
--   * Base, with Tests, Lists and Int: numbers, Boolean tests, lists, and integers as results.
--   * Thing: the message types of tuya_daemon/include/tuyalink_core.h; Thing/Names has the proof.
--   * World: the state of a process and the calls out of it. State has the process (`Sys`) with
--     the history of its calls, the live heap blocks, the flag `keep_running` and the handlers;
--     Environment has the code that is not in the repository; Program is the monad of the
--     translated functions; Calls and Syslog have the calls that both daemons make; Logic (with
--     Outcomes, Views and Untouched), Trace and Faults have the rules for proofs. Steps describes a
--     run as a sequence of steps of the process, for what holds of every run whatever its outcome:
--     Steps/Invariants has what the steps keep, Steps/Finish counts the events of a loop that runs
--     until a signal, Steps/Prompt and Rounds the calls that may block after the signal, and
--     Steps/Reports has the reports that a run makes, Steps/Refused what is left of a report that
--     has failed, Steps/Install the two calls that install the handlers, and Steps/Fresh the
--     addresses.
--     Protocol is the order in which a client of libtuya makes its calls, as a state machine on
--     histories that does not know the daemons, with rules for runs that follow it.
--   * Openwrt: openwrt/tuya_daemon/src. Signals, Args, SendInfo, Connection and Main are the .c
--     files of these names, Ubus has the calls of libubus that send_info.c makes. Below them stand
--     the proofs: Args/Options, SendInfo/Replies, Requests and Memory, Connection/Memory, Retries,
--     Lifecycle and Bounds, Main/Loop, LogLevel, Opening, Serving, Closing, Names, Configured and
--     Whole, and Main/Decided and Starts for the options with which the daemon starts. Walks, with
--     Senders, Wanted, Wanted/Asks, Callbacks, Daemon, Moments, Stops, Ordered, Prompt, Reports and
--     Refused below it, follows every run of the daemon as steps: what a message may make it do,
--     how a signal ends it and how soon, in which order it calls the MQTT library, and what it
--     reports. Hazards has what goes wrong when a library answers in a way that the code does not
--     expect, and Hazards/Inputs what a message and a missing ubus can do.
--   * Host: tuya_daemon/. Args, Daemon, Connection and Main are args.c, become_daemon.c,
--     connection.c and main.c; Buffer has the char array of the time report. Args/Complete,
--     Daemon/Order, Buffer/Texts, Connection/Payload, Report, Format and Messages, and
--     Main/Serving, Connect, Loop, Clean, Whole and Lives have the proofs; Walks, with Background,
--     Run, Stops, Ordered, Prompt and Refused, follows every run as steps; Hazards has what a
--     message can do.
--   * Samples and Tests: concrete environments, and the theorems applied to them.
-- A function of the model has the name of the function of the source; a loop, and a stretch of a
-- function between two labels, is a function of its own.
--
-- The environment. libtuya, libubus, libuci, cJSON, libc and the kernel are a record of functions
-- (`Env`): each call is answered by a function of the whole history of calls. An environment is thus
-- any behaviour of the libraries, any order of callbacks and any time of a signal, and the theorems
-- speak of every environment that meets their hypotheses. A signal arrives at the end of a call:
-- the code reads `keep_running` only between calls. The MQTT library runs the callbacks of its
-- configuration inside `tuya_mqtt_loop` and `tuya_mqtt_disconnect`.
-- A message carries a text; to cJSON a NULL text is one that does not parse.
-- Undefined behaviour is an outcome of a run (`Fault`): a read of an uninitialised variable, a
-- NULL pointer or a freed block, a bad `free`, a cast out of range, a write behind an array. A NULL
-- context counts as such in `uci_free_context`, which is not documented to accept one.
-- `argp_parse` returns with the arguments, or ends the process with a status of its own, as for
-- --help and for a wrong option (`ArgpOutcome`).
--
-- Bounds and fuel. The retries of a connection are bounded by the code and recursive on the rounds
-- that are left. The wait for the connection and the main loops may run for ever: they are recursive
-- on fuel, and a run that has used it up ends in `unfinished` with the state that it has reached, of
-- which the theorems speak as well. `unsigned int` has 32 bits, and its wrap-around is written out.
--
-- Not modelled: the texts that `%s` puts into the log and what argp prints, the identities of file
-- descriptors beyond what `become_daemon` tests, running out of memory in `malloc` and `strdup`,
-- and the sizes and the inner life of the libraries. The Lua page, the init script, the Makefiles
-- and the patch of the package have no part in it.
pub mod Base
pub mod Thing
pub mod World
pub mod Samples
pub mod Openwrt
pub mod Host
pub mod Tests
