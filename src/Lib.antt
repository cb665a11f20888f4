-- ===== src/Lib.antt =====
-- Verification of the storage crates of canoe-nusb-storage.
--
-- nusb-scsi drives a USB mass-storage device over the Bulk-Only Transport. A `Scsi` session
-- sends one command at a time over a `BulkIo` transport and is retired (`usable` becomes false)
-- unless the command ends with a status that says it succeeded or failed as a whole. A
-- `RangeSession` on top of it reads and writes byte ranges. On the side of the browser,
-- canoe-usb-web opens a device by `NusbIo::connect_web`, keeps a `ManagedStorageSession` around
-- one
-- `RangeSession`, or a `FastbootSession` around a client of an external engine, and closes the
-- device once a client is lost. canoe-fs opens a FAT or ext4 file system over a block device
-- that its owner supplies, confines it to that device, and retires it after a failure.
--
-- Common: tests on the native numbers, lists with the names of the standard library, byte
--   orders, how a call ends (Common/Outcome), postconditions by the end (Common/Ends), where a
--   sequence of calls stops (Common/Stops), and what a call keeps (Common/Keeps).
-- Scsi (nusb-scsi/src/lib.rs): Scsi/Error and Scsi/Transport hold the types and `Scsi::new`;
--   Scsi/Wire the wrappers' bytes; Scsi/Command `Scsi::command`, one definition for a stage;
--   Scsi/Operations the commands that are built on it and `block_command`. Scsi/Retirement,
--   Scsi/Blocks, Scsi/Readiness and Scsi/Requests are proofs over every transport. Scsi/Target
--   states what a conforming device does with a wrapper, a data packet and a status read;
--   Scsi/Target/Steps, Scsi/Target/Transfers and Scsi/Target/Blocks show what block reads and
--   writes do over one, Scsi/Target/Answers what the commands without data and the capacity do.
--   Scsi/Quiet is about what a session that writes no blocks sends.
-- Range (nusb-scsi/src/range.rs): `RangeSession` and its operations; Range/Span is about which
--   blocks a range takes, Range/Safety about every transport, Range/Requests about
--   sequences of calls, Range/Arms, Range/Refinement, Range/Roundtrip and
--   Range/Reopening about conforming devices.
-- Fs (canoe-fs/src/lib.rs): Fs/Guarded is the block device with its bounds and its retirement,
--   Fs/Io the stream that FAT reads, Fs/Path and Fs/Text the test of paths; Fs/Engines lists the
--   calls of the two file systems; Fs/Session holds the state and the shared guards (`mounted`,
--   `writable`, `mutation`), Fs/Stat, Fs/Files, Fs/Operations and Fs/Lifecycle the operations
--   (`open` is `open_session`), Fs/Listing and Fs/Inspection `list` and `inspect`.
--   Fs/Confinement says what calls of the guard may reach, and its children what sequences of
--   requests do to the device; Fs/Closed is about single operations,
--   Fs/Listing/Bounds about the number of entries of a listing.
-- Ext4 (nusb-ext4/src/lib.rs): `inspect` and `mount` over fs_ext4 as a parameter; Ext4/Recovery
--   is about what was read before a journal may be replayed.
-- Fs/Worker (canoe-fs/src/wasm.rs): the block device over the page's storage broker, and
--   `open_filesystem`; Fs/Worker/Methods are the methods of `BrowserFilesystem`, over the
--   serializer as a parameter. Fs/Worker/Exact is about offsets as JavaScript numbers,
--   Fs/Worker/Calls about sequences of methods.
-- Usb (nusb-scsi/src/lib.rs): `NusbIo`, from a claimed interface to a `BulkIo`, and the native
--   close; Usb/Selection is about the endpoints, Usb/Results and Usb/Packets about the ends of the
--   connection and its packet size, Usb/Draining about the close, Usb/Quiet about what
--   the transport keeps of the bus.
-- Probe (nusb-scsi/examples/managed_probe.rs): the bounded commands and the lines that they print;
--   Probe/Arguments reads the arguments, Probe/Connected is `run_connected`, Probe/Running `run` and
--   `main`. Probe/Quiet and Probe/Writeless are about what is sent, Probe/Stages, Probe/Teardown,
--   Probe/Release and Probe/Ending about what is printed and how each call ends.
-- Web: Web/Browser holds the browser's device as the code sees it and the values that are
--   thrown; Web/Closing is `close_web` (nusb-scsi/src/lib.rs) and `close_after_failure`
--   (canoe-usb-web/src/lib.rs), Web/Connecting is `connect_web` and the browser's `close`.
-- Managed (canoe-usb-web/src/managed.rs): `ManagedStorageSession`; Managed/Opening is its
--   opening, with the inline JavaScript that selects the interface; Managed/Opening/Stops and
--   Web/Connecting/Stops are about where an opening stops, and with which interface claimed. Managed/Requests and
--   Managed/Closing are about sequences of calls and about a lost client, Managed/Writeless about
--   what a read-only session sends, Managed/Refinement about conforming devices.
-- Fastboot (canoe-usb-web/src/lib.rs): `FastbootSession`; Fastboot/Hash is the text of its hash
--   command, Fastboot/Opening its opening, Fastboot/Outcomes and Fastboot/Checks are about its
--   calls.
-- Tests: a concrete conforming device, and runs at concrete inputs.
--
-- A call is a function from a state to how it ends and the state it leaves. It ends with `ok`,
-- with `err`, with `dropped` (the caller dropped the future while a transfer was awaited), or
-- with `panicked`. `stuck` means that a loop ran out of the fuel it was given: the receive loop
-- has as many rounds as bytes are asked for, since each round adds one or fails, and the send
-- loop as many as there are bytes, since each round removes one. Integers are natural numbers;
-- where the code wraps or converts, `% 2 ^ w` is written out, and where it checks, the bound is
-- a test.
--
-- The search of a FAT directory in `stat` has 4097 rounds, since the round of the entry 4096
-- ends it, and the read loop of a FAT file as many rounds as bytes are asked for. That of `list`
-- ends with fatfs's iterator, so its rounds are an argument, and what is proved holds for every
-- number of them.
--
-- The file systems (fatfs and fs_ext4) are parameters: records of calls on a state that holds
-- the guarded device, shared with the session. `to_uppercase` is a parameter too.
--
-- Each loop of the native close has its own rounds: as many as transfers are pending are enough.
--
-- The transport (the nusb crate) is a parameter: a record of functions on a state that holds the
-- device too. Lengths of Rust vectors are taken to be below `usize_max` where the code
-- allocates. The browser's device, the fastboot engine, base64 and the page are parameters of
-- the same form. A deadline is an end of the call that it races: `dropped`, or `timed_out` in
-- `close_web`; where a deadline may overtake a call that has one of its own, or the drain loops,
-- an oracle (`overtaken`) gives the state in which the call is dropped. A client has the state of the browser's handle; a session that drops it takes
-- that state over (`handle`). A number from JavaScript is a natural number; the conversion of a
-- `u64` to an `f64` is written out.
--
-- A transport of the trait `BulkIo` knows no panic. `NusbIo` panics on a read where the endpoint's
-- packet size is 0 (`next_multiple_of`): the calls that wait for it are unwound there, as where the
-- future is dropped, and the theorems about how calls over `NusbIo` end have the hypothesis
-- `HasPackets`, that no descriptor has such an endpoint.
--
-- Not modelled: nusb-fatfs, the dialogs in which a user chooses a device, the conversions of
-- JavaScript values and the tests.
pub mod Common
pub mod Scsi
pub mod Range
pub mod Fs
pub mod Ext4
pub mod Usb
pub mod Web
pub mod Managed
pub mod Fastboot
pub mod Probe
pub mod Tests
