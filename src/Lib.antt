-- ===== src/Lib.antt =====
-- The XVC server of xvcSupport (xvcSrv/src): a server that takes JTAG vectors from a client over
-- TCP and passes them to a target through a driver. The parts that are modelled:
--
-- * `JtagDriverAxisToJtag`, the driver above a transport (xvcSrv/src/xvcSrv.cc, xvcDriver.h).
--   Header.antt has the 32-bit message header (`getXid` to `mkQueryReply`), Header/Memory.antt the
--   header in a buffer (`getw32`, `setw32`, `setHdr`) for a host of either octet order. Driver.antt
--   has the object (`Drv`: the fields, with `txBuf_` and `hdBuf_` as the memory they reserve),
--   `xferRel`, `query` and `sendVectors`; Driver/Message.antt has the message of a vector. The
--   virtual `xfer` of a transport is a parameter, a function on the transport's own state.
-- * `JtagDumpCtx`, the sniffer that `sendVectors` feeds when asked (jtagDump.cc, jtagDump.h):
--   Dump/Register.antt has the registers, Dump/Tap.antt the 16 states with one function each, and
--   Dump/Buffer.antt `processBuf`.
-- * `JtagDriverLoopBack` and `UdpLoopBack`, the emulated target (xvcDrvLoopBack.cc, .h).
--   LoopBack.antt has its `xfer` as a transport for the driver, with the playback file as a list of
--   lines and sscanf as a parameter; LoopBack/Datagram.antt has the server of datagrams around it.
-- * `XvcConn`, the connection to a client (xvcConn.cc, xvcConn.h). Conn.antt has the receive window
--   (`fill`, `bump`), `allocBufs`, `flush` and the commands of `run`. The operations of the driver
--   that it calls are a record, what the client sends is a list of segments, and what the writes to it
--   return a list of numbers, 0 for an error (Conn/Flush.antt). Conn/Safe.antt says
--   what it is to keep to the blocks, and Conn/Window.antt and its children are about the window.
--   Conn/Session.antt is no code: it has the requests of the protocol and the replies that a client
--   is to get, and its children follow a whole connection. Raw/Driven.antt, Raw/Empty.antt,
--   Bridge/Session.antt and Tmem/Session.antt put a driver for hardware behind it.
-- * `DriverRegistry`, the drivers by their names (xvcSrv.cc, xvcDriver.h): Registry.antt.
-- * `JtagDriverUdp`, a transport over datagrams (xvcDrvUdp.cc, xvcDrvUdp.h): Udp.antt, with the
--   socket as a list of what it does; Udp/Start.antt has its constructor.
-- * The drivers for hardware, whose registers are a device that the models take as a parameter:
--   Mmio.antt has the access to registers and the loop that polls one, Mmio/Map.antt the memory map
--   of mmioHelper.h, and Driver/Start.antt the drivers' `init`. Raw.antt has the message handled in
--   the driver word by word, which `JtagDriverZynqAxiDbgBridgeIP` (xvcDrvAxiDbgBridgeIP.cc, .h;
--   Bridge.antt) and `JtagDriverTmemFifo` (xvcDrvAxisTmem.cc, .h; Tmem.antt, with its FIFO and its
--   constructor in Tmem/Fifo.antt) share; Fifo.antt has the reply of a FIFO, which the latter shares
--   with `JtagDriverZynqFifo` (xvcDrvAxisFifo.cc, .h; Zynq.antt). Serial.antt is no code: it says what
--   a target does with the bits of a vector one clock after the other.
-- * `XvcServer` and `main` (xvcSrv.cc): Server.antt has the loop over the connections, the options
--   and the choice of a driver, Server/Main.antt the rest of `main`. Server/Sockets.antt has what is
--   done with descriptors: `SockSd`, the constructor of `XvcServer`, the life of a connection and the
--   wait in `XvcConn::read`, over the calls of the system as a parameter; Server/Clients.antt has the
--   server with the connections of Conn.antt in it.
--
-- Conventions. Numbers are natural numbers; `unsigned` and `uint32_t` wrap by `u32`, and a
-- subtraction on them is `sub32`. A block of memory is the list of its octets, and an access outside
-- it is `none`, in the driver the error `fault`. A call that can throw returns a result and the state,
-- which keeps what was changed before the throw (Base/Results.antt). The loop of `xferRel` is
-- recursion on the turns left, `retry_ + 1` at first, so no fuel is needed there; that of
-- `processBuf` is recursion on the buffers. The loops of `XvcConn` run on fuel: `fill` on the number
-- of octets it needs, since a read brings one at least, the pieces of a vector on its bits, since a
-- piece has one at least, the commands of a chunk and the writes of a reply on their octets. The loop over the words of a message
-- runs on their number. A loop that polls a device has `patience` rounds, which the theorems ask to be
-- enough for the device; `hang` stands for a loop that is not over then.
--
-- Not modelled: debug prints (the lines that the sniffer prints are values); the octets of a block
-- that `reserve` has just allocated, taken as 0; what a transfer stores in the receive block before it
-- throws. libm is not under the repository: the numbers that `cvtPerNs` and `encPerNs` round to are
-- parameters. What a device does is stated for each kind of it in a record of laws (Bridge/Steps.antt,
-- Tmem/Pins.antt, Tmem/Sdes.antt, Zynq/Stream.antt), and Examples/Targets.antt has one that meets them.
-- Of sockets, the descriptors and what is read and written are modelled, but not the addresses; the
-- printed texts (`usage`, `dumpInfo`), the time that is measured while a register is polled, and the
-- firmware are left out. Whether an exception that nothing handles unwinds the stack, which C++ leaves
-- open, is a parameter of what is done with descriptors. A message that ends behind `txBuf_` is a fault
-- of `xferRel`, before the transport, which would read it there, does anything. The text of the greeting
-- (sprintf) is a parameter, with the 0 that ends it in the model.
pub mod Base
pub mod Header
pub mod Dump
pub mod Driver
pub mod LoopBack
pub mod Conn
pub mod Registry
pub mod Udp
pub mod Serial
pub mod Mmio
pub mod Raw
pub mod Bridge
pub mod Tmem
pub mod Fifo
pub mod Zynq
pub mod Server
pub mod Examples
