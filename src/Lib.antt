-- ===== src/Lib.antt =====
-- Verification of the Guru SocketCAN driver, a Linux kernel module for USB adapters with CAN and LIN
-- channels.
--
-- The program. guru-drv.c registers the driver with the USB core and picks one of three device types
-- by the product name (canguru-device.c, linguru-device.c, mbus-device.c). Each of them creates its
-- CAN and LIN channels as net devices (canguru-net.c, linguru-net.c) and registers the messages that
-- it takes from the device (guru-msg-std.c, canguru-msg-net.c, linguru-msg-net.c). guru-device.c
-- sends commands over a bulk endpoint, receives packets and hands each to the message that is
-- registered for its identifier. guru-boot.c keeps a character device for the boot loader, and
-- linguru-voltage.c an IIO channel for the bus voltage.
--
-- The model. A function of the driver is a function in the monad `M S` of Kernel.antt, over the
-- state `S` of its component: it calls the kernel and returns a result or a fault. The kernel is a
-- parameter. It answers a call by a value that may depend on all earlier calls, so that a theorem
-- about every kernel covers every failure and every order of failures. The calls are recorded,
-- newest first, and Kernel/Ledger.antt reads off a record what went out and what is still held;
-- Bus/Registrations and Boot/Ledger do so for net devices and boot devices. A kernel may refuse a
-- socket buffer, which the driver does not check: Kernel/Safe is about runs that either return or
-- dereference NULL on such a kernel. Kernel/OrNull, Boot/Serial, Devices/Serial and Probe/Serial
-- compare a device that reports no serial number with one that does. What C leaves undefined
-- (NULL dereference, access out of bounds, division by zero, a list node that is linked twice) is a
-- fault. The CAN library of Linux (lengths and length codes) is the record `CanLib`; `IsCanLib`
-- states what its documentation says.
--
-- Files, each for the file of the driver of the same subject:
--   Base         shared names, tests, lists, integers, bits and bytes over the native numbers
--   Kernel       the calls, the monad, and what a record of calls says
--   State        guru-msg.h, guru-device.h and the structures of the other headers
--   MsgIds       the identifiers of canguru-msg-net.h, linguru-msg-net.h and guru-msg-std.h
--   Send         guru-device.c: guru_send_data
--   Dispatch     guru-device.c: canguru_process_msg_list and the two bulk callbacks
--   Reception    guru-device.c: canguru_usb_rx_init and guru_dev_init
--   CanWire      canguru-net.c: the packed structures as bytes
--   CanNet       canguru-net.c: the commands, the bit timing and the two send functions
--   CanChannel   canguru-net.c: creation, opening, closing and removal of a channel
--   CanTransmit  canguru-net.c: canguru_start_xmit and the answer to it
--   CanReceive   canguru-net.c: canguru_net_recv
--   LinWire, LinNet, LinTransfer   the same of linguru-net.c
--   Bus          the array of net devices and the list of replies of the two msg-net files, when
--                they are sound, how a transmission of either bus ends, and what the counters of a
--                net device are to say
--   Messages     guru-msg-std.c, guru_add_msg, and the status callbacks
--   CanMessages, LinMessages   canguru-msg-net.c and linguru-msg-net.c
--   Voltage      linguru-voltage.c
--   Boot         guru-boot.c
--   Devices      canguru-device.c, linguru-device.c and mbus-device.c, and guru_dev_deinit; the
--                children follow the channels of each type from their creation to their removal,
--                and Devices/Kinds sets the three types side by side
--   Driver, Probe   guru-drv.c: loading and unloading, plugging in and pulling out; Probe/Soundness,
--                Probe/Session and Probe/Lifetime follow a device from guru_usb_probe on
--   Exchange     transmissions, answers and received frames in any order, as a step relation; what
--                is reachable, the list of replies as a queue, and how it drains
--   CanId, CanLoopback   the identifier word of SocketCAN, and both directions taken together
--   Registry     all registrations of a device
--   Examples     a kernel that grants everything, and runs on it
--
-- Correspondence. A structure of the driver is a record of the same name in UpperCamelCase; a
-- function keeps its name. The code behind a label is a function of its own, and so is a part of a
-- function that a branch runs. A pointer is a number, 0 for NULL, and the pointer to a net device of
-- a bus is its index. An array that holds pointers is a list of options. Packed structures are laid
-- out little-endian with bit fields from the low end, as gcc does on x86 and arm. Counters keep their
-- wrap-around at 2 ^ 64, `u32` arithmetic at 2 ^ 32.
--
-- Bounds. The loop of canguru_read_bulk_callback runs on fuel, one turn more than the buffer has
-- bytes; each turn takes 128 of them. The other loops are recursions on their counter or list.
--
-- The components meet in Dispatch, Probe and Exchange. Dispatch/Soundness, Dispatch/Reading and
-- Dispatch/Transfer take the handlers of CanMessages and LinMessages together for whole packets and
-- whole transfers, under the condition that the device is sound (`IsDevice`) and that no identifier
-- is registered twice (`IsReceiving`). Probe/Soundness is about where that condition comes from,
-- Probe/Session about the transfers after that, and Probe/Lifetime about what is left of a device;
-- they put the initialisation of the reception, the channels, the boot device and the voltage
-- together. Exchange takes the transmit function and the handlers together over time.
--
-- Not modelled: the texts of log lines, DMA addresses, allocation flags, the tables of operations
-- and interleavings within a function: each function runs to its end before the next one starts. So
-- the completions that usb_kill_anchored_urbs causes, which give back the buffers of commands that
-- are still pending, are not part of a removal. The
-- answers that arrive while the voltage is read are an argument of linguru_volt_read_raw, and the copy
-- of a serial number to the user is a call of the kernel.
pub mod Base
pub mod Boot
pub mod Bus
pub mod CanChannel
pub mod CanId
pub mod CanLoopback
pub mod CanMessages
pub mod CanNet
pub mod CanReceive
pub mod CanTransmit
pub mod CanWire
pub mod Devices
pub mod Dispatch
pub mod Driver
pub mod Examples
pub mod Exchange
pub mod Kernel
pub mod LinMessages
pub mod LinNet
pub mod LinTransfer
pub mod LinWire
pub mod Messages
pub mod MsgIds
pub mod Probe
pub mod Reception
pub mod Registry
pub mod Send
pub mod State
pub mod Voltage
