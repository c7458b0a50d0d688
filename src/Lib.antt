-- ===== src/Lib.antt =====
-- clonebox: a small container runtime in Rust. `clonebox-core` is the library that creates containers
-- and acts on them, `cloneboxd` a daemon that offers it over gRPC. Each container has a directory
-- /run/clonebox/<id> with a file state.json, which every command reads and writes anew. The daemon
-- starts one shim per container, which calls `create` and reports each change of the state as an event
-- over a socket; the daemon keeps a map from ids to states, with the requests that wait for an event.
-- `clonebox` is the command line, which sends one request to the daemon per run.
--
-- What the code asks of the system goes through `Os` (Os/Kernel.antt): a field for each of the calls on
-- state files, signals and sockets of the commands, and one for all others, which are the constructors
-- of `Request` (Os/Asks.antt) with the type of the reply to each. A reply may depend on the whole
-- history of calls so far. Nothing else is known of the system, so a statement about `⦃os : Os⦄` holds
-- for every system, with every pattern of failures. Code that calls the system is in the monad `Sys`
-- (Os/Monad.antt): it runs on the history and ends with a value, a CoreError, or the end of its
-- process. Three records name what a statement may rely on: IsFaithful (Os/Disk.antt), that a read of a
-- state file finds what the calls before it left there, and that serde_json reads what it printed;
-- IsCooperative (Container/Progress.antt), that every call of the commands succeeds; and IsWire
-- (Daemon/Hears.antt), that an event which is printed and sent arrives as one line and reads as that
-- event. A write that succeeds leaves its text, and the removal of a directory that succeeds no file.
-- What a write that fails leaves, which has truncated the file by then, and whether a removal that fails
-- has taken the file, are parameters of the contents (`torn` and `lost` of Disk) that nothing is known
-- of. With IsFaithful the history is that of all writers of the files, so other processes do not write
-- between the calls of one command; what they do between commands is in the history.
--
-- Prelude.antt    numbers, lists of bytes, texts. A text is the list of its bytes. length, take, drop
--                 and ℤ stand over the native numbers.
-- Errors.antt     clonebox-core/src/error.rs; Errors/Display.antt the texts of the errors.
-- State.antt      clonebox-core/src/state.rs: ContainerState, State and the setters; State/File.antt
--                 write_state_file, read_state_file, update_state; State/Stored.antt what these do to
--                 the file; State/Paths.antt the paths of different ids; State/Shown.antt Display.
-- Os.antt         the interface above; Os/Disk.antt the contents of the files after a history;
--                 Os/Loud.antt the calls that bear on the state files and the daemon; Os/Returns.antt
--                 relations between the histories before and after.
-- Logger.antt     clonebox-core/src/logger.rs.
-- Runtime.antt    clonebox-core/src/runtime.rs: the pipe that holds a child, and the socket on which
--                 start meets create.
-- Cgroup.antt     clonebox-core/src/cgroup.rs.
-- Clone3.antt     clonebox-core/src/clone3.rs: the builder and what it hands to the kernel; Clone3/Bits.antt
--                 laws of `bit_and` and `bit_or`, Clone3/Setters.antt sequences of setters.
-- Namespace.antt  clonebox-core/src/namespace.rs: the mounts of the child.
-- Config.antt     clonebox-core/src/config.rs: load and the getters; what serde makes of config.json is
--                 an argument.
-- Container.antt  clonebox-core/src/container.rs: start, state, kill, delete, pause, resume, cleanup;
--                 Container/Create.antt create, and Container/Exec.antt container_exec, exec and
--                 enter_namespace. The other child modules are named for what they prove.
-- Shim.antt       clonebox-shim/src/main.rs and clonebox-exec/src/main.rs.
-- Lifecycle.antt  the contract of these: a state machine, as a partial function and as a relation.
-- Table.antt      the map of the daemon as an association list, in place of std's HashMap.
-- Event.antt      clonebox-core/src/event.rs: the record of an event; Event/Sending.antt send_event.
-- Daemon.antt     cloneboxd/src/entry.rs and the critical sections of daemon.rs, event.rs and
--                 recovery.rs; Daemon/Handlers.antt the handlers; Daemon/Recovery.antt recovery.rs;
--                 Daemon/Events.antt event_loop and graceful_shutdown; Daemon/Convert.antt convert.rs;
--                 Daemon/Start.antt main.rs and get_listen_sk; the other child modules are proofs.
-- Client.antt     clonebox/src/main.rs: the command line, from the parsed command on;
--                 Client/Served.antt the command line in front of the daemon's handlers.
-- Handshake.antt  container.rs and runtime.rs once more, as a step relation: how create, the process
--                 that it clones and start meet over a pipe and a socket. Handshake/Marks.antt and
--                 Handshake/Calls.antt tie the steps of create to the calls of run_child.
-- Network.antt    clonebox-core/src/network.rs: Network/Writer.antt and Network/Reader.antt the two
--                 structs of these names; Network/Structs.antt the structs of libc and their builders;
--                 Network/Messages.antt what each request writes before it sends;
--                 Network/Requests.antt sending, replies and create_network;
--                 Network/Attributes.antt the format of rtnetlink(7), apart from the code.
--
-- Concurrency in the daemon: the map is behind one mutex, so requests, events and recovery interleave
-- as a sequence of critical sections, `Change` in Daemon.antt. A oneshot channel is the number of its
-- sender, and what its receiver gets is a notice in the state of the daemon. A handler that awaits a
-- channel is split there. A poisoned mutex is left out, and so is the log.
--
-- Numbers: a length that the code casts with `as u16` or `as u32` is taken modulo 2 ^ 16 or 2 ^ 32. The
-- order of bytes of the machine is an argument, `Endian`. The loop of pad_to_align has fuel 3: a
-- multiple of four is never further away. Nothing else has fuel.
--
-- Processes: `create` after the clone is two processes. Each runs on the history up to the clone, so a
-- statement is about one of them, and what one does is for the other part of what the system may reply;
-- only Handshake.antt has both, with the calls of start and the other commands beside them. That a
-- child never returns from create is part of its model: it becomes the program (`replaced`), exits, or
-- panics. Descriptors are numbers, and are never closed in the model. An event loop reads a list of
-- connections, and how tokio finds the lines of one is an argument.
--
-- Clients: the command line and the daemon meet through `Host` (Client.antt), what tonic's client and the
-- start of a process do on the state of everything else. IsServed (Client/Served.antt) says of it that
-- a request reaches its handler and the answer comes back.
--
-- Not modelled: the parsing of the command line by clap, tonic's server and client themselves, which are
-- arguments, and the log; flags of calls that are the same in every call (MSG_WAITALL,
-- O_CLOEXEC); the negation of the smallest i32 as an error number, which overflows in the code. A
-- kernel that replies to clone3 with a negative number is one that fails. The order in which a HashMap
-- lists its keys is that of the association list here.
pub mod Prelude
pub mod Errors
pub mod State
pub mod Os
pub mod Runtime
pub mod Cgroup
pub mod Namespace
pub mod Clone3
pub mod Config
pub mod Container
pub mod Shim
pub mod Lifecycle
pub mod Table
pub mod Event
pub mod Logger
pub mod Daemon
pub mod Network
pub mod Client
pub mod Handshake
mod Tests
