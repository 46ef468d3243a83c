-- ===== src/Lib.antt =====
-- A model of the GPIB driver for the National Instruments PCMCIA-GPIB card: the chip driver, the
-- IEEE 488 controller above it, the card's tuples and its Plug and Play identifier, the Windows CE
-- driver, the client library, a network server on it, and the runtime.
--
-- The program. src/gpib/tnt4882.c drives the TNT4882C chip through the callbacks of `tnt_io`; it
-- keeps copies of the auxiliary registers, which cannot be read back, and accumulates the status
-- registers, which are cleared by reading them. src/gpib/gpib488.c builds the sequences of command
-- bytes that address devices and sends them, and the data, through the chip driver.
-- src/gpib/pnpid.c makes the identifier by which Windows CE knows the card from the tuples in its
-- memory, which src/gpib/cis.c captures. src/gpib/drv_ce.c serves the IOCTLs of applications with
-- these operations. src/gpibapi/ib.c is the library of the applications: it keeps a table of
-- descriptors and turns its calls into those IOCTLs, with the structures of
-- include/gpib/gpib_ioctl.h in their buffers. src/gpibsrv/gpibsrv.c is a program on that library: a
-- server on TCP that passes the lines of a client on to instruments. src/rt has the memory and
-- string functions and the formatter that all of them use.
--
-- The files.
-- - Prelude: Boolean tests, lists, C integers and bit operations that all parts share.
-- - Chip.Reg, Chip.Bits, Chip.Status: the constants and codes of include/gpib/tnt4882.h.
-- - Chip.Io: the chip structure, the callbacks, and the monad of the driver. The state is the chip
--   structure with the history of the calls of `tnt_io`, newest first. What a register reads and
--   what the clock shows are a parameter, `Io`: any function of that history, so a card may answer
--   anything at any time.
-- - Chip.Access, Chip.Deadline, Chip.Setup, Chip.Control, Chip.Transfer: the functions of
--   src/gpib/tnt4882.c, a definition for each, with those that C writes inline (a loop, its body,
--   what comes after it) as definitions of their own. Chip.Calls: the calls of the interface as one
--   type.
-- - Chip.Protocol: the steps that the driver takes, as a relation on states, and that every
--   function takes only those. Chip.Spacing and Chip.Shadow are invariants of the steps.
-- - Chip.Transfer.Output, Chip.Transfer.Sent: what an output transfer puts into the FIFO.
--   Chip.Transfer.Silent: that nothing else writes to the FIFO. Chip.Init: the start of the chip.
--   Chip.Deadline.Elapsed: deadlines and the time that went by.
-- - Controller.Bytes, Controller.Ops: include/gpib/gpib488.h and src/gpib/gpib488.c.
--   Controller.Commands: its device commands as one type. Controller.Session: its interface as one
--   type, and sequences of its operations.
-- - Controller.Bus, Controller.Addressing: what the command bytes mean to the devices on the bus,
--   independently of the driver, and what the sequences bring about there.
-- - Controller.Emits, Controller.Delivers: rules for what a function writes to the FIFO.
--   Controller.Traffic, Controller.Messages, Controller.Poll: these for the operations.
-- - PnpId.Crc, PnpId.Build: include/gpib/pnpid.h and src/gpib/pnpid.c. PnpId.Text and
--   PnpId.Identifier are about its strings, PnpId.Table about its CRC tables.
-- - Runtime.Memory, Runtime.Strings: src/rt/crt.c, over a memory with a byte at each address and
--   over strings as lists. Runtime.Moves is about the functions on memory.
-- - Runtime.Sink, Runtime.Numbers, Runtime.Format: src/rt/fmt.c, from the bottom up.
--   Runtime.Rendered says which text a format string stands for, without any buffer; Runtime.Output
--   compares it with what the formatter writes. Runtime.Digits is about its digits.
-- - Wire: the structures and codes of include/gpib/gpib_ioctl.h as bytes.
-- - Api.Codes, Api.State, Api.Requests, Api.Calls, Api.Transfers: include/gpib/ib.h and
--   src/gpibapi/ib.c. Windows CE, and with it the driver, is a parameter, `Os`: any function of the
--   history of calls. Api.Session: its calls as one type. Api.Table, Api.Errors, Api.Reads,
--   Api.Reports: the descriptors, calls on those that are not open, reads, the status words.
-- - Driver.State, Driver.Ready, Driver.Ioctls, Driver.Dispatch: src/gpib/drv_ce.c from a loaded
--   card on, over the chip driver's world. An IOCTL has its buffers as bytes, NULL as none, and
--   gives back TRUE or FALSE, the error code, and what it stored. Driver.Answers, Driver.Safety,
--   Driver.Served: what it may store and change. Driver.Traced: its steps on the chip.
--   Driver.Config: settings. Driver.Window: the choice of the I/O window. Driver.Stream: reads and
--   writes of the stream. Driver.Lifecycle: the load and the unload, as the order of their calls;
--   what the system and Card Services answer is a parameter. Driver.Lifecycle.Held,
--   Driver.Lifecycle.Load: what is held.
-- - Api.Proper, Driver.Accepts: the sizes and limits that the driver checks, and the client
--   library's IOCTLs at these checks.
-- - Cis.Walk: src/gpib/cis.c; what Card Services answers is a sequence. Cis.Raw: the captured bytes
--   as a format. Cis.Captured: the capture against that.
-- - Gateway.State, Gateway.Sockets, Gateway.Words, Gateway.Transfers, Gateway.Literals,
--   Gateway.Commands, Gateway.Serve: src/gpibsrv/gpibsrv.c, over the client library. What `send`
--   returns is a function of the calls before; what `recv` and `accept` give is a sequence.
--   Gateway.Lines: what bytes mean as lines, independently of the server's buffer; Gateway.Encoding
--   and Gateway.Client: the server against that. Gateway.Preserves, Gateway.Settings: its settings.
--   Gateway.Idle: silent clients. Gateway.Delivery: what is sent. Gateway.Target, Gateway.Table,
--   Gateway.Descriptors, Gateway.NoLeak, Gateway.Service: its descriptors. Api.Unchanged: the calls
--   of the library that leave the table of descriptors alone.
-- - Chip.Results: rules for what a function returns. Chip.Transfer.Ended, Chip.Transfer.Ended.Read: the END
--   status that a read accumulates. Chip.Transfer.Received: what a read returns.
-- - Chip.Tests, Controller.Tests, PnpId.Tests, Runtime.Tests, Api.Tests, Driver.Tests, Cis.Tests,
--   Gateway.Tests: runs with a small card or system, and the theorems at them.
--
-- Integers. Bytes are cast with `% 2 ^ 8` where C casts them, the clock and the deadlines wrap at 2
-- ^ 32; addresses are `int` and may be negative. The length that the formatter counts wraps at 2 ^
-- 32, and so does a number in a controller command of the server, where overflow is undefined in C;
-- the width of a directive does not wrap: beyond the range of `int` it is undefined in C. The
-- address space does not wrap around.
--
-- Loops. A polling loop takes the number of rounds that it is granted; a run that needs more gives
-- `spin`, with no result. A loop may wait for ever if no timeout is set, as in C. The drain of the
-- FIFO needs no such bound, since it is limited by the room in the buffer. A theorem about what a
-- run returns holds for every number of rounds. The formatter is granted a round for each character
-- of its format string and one more, and each round takes at least one; its digits have the 12
-- places that C gives them, and a 32-bit number has at most 10 in the bases that are used.
-- `send_all` is granted a call for each byte, and each takes a byte or is the last. A read for a
-- client of the server goes on until the talker ends its message: one that never does keeps the
-- server `busy`, and so does a client or an `accept` that gives nothing more.
--
-- Not modelled: in the Windows CE driver, most parameters of the calls of Card Services, the notice
-- that a card is removed, the opening and closing of the stream, the lock between IOCTLs, which
-- makes IOCTLs come one after the other, and the log lines, but for the registers that are read for
-- them; the log, with the tuples that are only logged, the installer and the programs other than
-- the server; of the server, its window, what `WinMain` does at the end, socket options and log
-- lines; in the client library, `ib_error_name` and `ib_driver_handle`, which change nothing; in
-- the runtime, the entry points and the division, which are written in assembly, and the passing of
-- variable arguments, which are a sequence of words here; the order in which the hardware sees
-- accesses that are not made through `tnt_io`; `gpib_bind`, since the controller's structure only
-- points to the chip.
pub mod Prelude
pub mod Chip
pub mod Controller
pub mod PnpId
pub mod Runtime
pub mod Wire
pub mod Api
pub mod Driver
pub mod Cis
pub mod Gateway
