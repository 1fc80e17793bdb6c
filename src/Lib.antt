-- ===== src/Lib.antt =====
-- libutp: a verification of the uTP transport protocol's C++ implementation.
--
-- A uTP socket sends a stream of bytes in numbered datagrams over UDP. It keeps sent packets in a
-- circular buffer until they are acknowledged, puts early ones in order in a second buffer, measures
-- the one-way delay to control its congestion window, and searches for the path's MTU.
-- A context owns the sockets and a list of those with an acknowledgment due.
--
-- The files, and the code that each models (paths from the repository's root):
--   Prelude    shared names: tests, lists indexed by native numbers, machine words, integers
--   Seq        utp_internal.cpp, `wrapping_compare_less` and the masks
--   CircBuf    utp_internal.cpp, `SizableCircularBuffer`; Window: growing; Entries: the buffer as a list
--   DelayHist  utp_internal.cpp, `DelayHist`; Laws: well-formedness; Drift: behaviour under clock drift
--   AckList    utp_internal.cpp, `schedule_ack`, `removeSocketFromAckList`, `utp_issue_deferred_acks`
--   Mtu        utp_internal.cpp, `mtu_search_update`, `mtu_reset`, and the handlers of probes and ICMP
--   Packet     utp_internal.cpp, `PacketFormatV1`, `OutgoingPacket`; utp_templates.h, `big_endian`
--   HashTable  utp_hash.cpp, utp_hash.h. Layout: the chains, and the map that a table stands for;
--              Add, Delete: the operations on the map; Iterate, Visited: the iterator, and
--              deletions behind it
--   SockAddr   utp_packedsockaddr.cpp; utp_hash.cpp, `utp_hash_mem`; utp_internal.h, `UTPSocketKey`
--   Socket     utp_internal.cpp, `UTPSocket`: its state. Window: `is_full`, `maybe_decay_win`;
--              Send: `send_data` to `write_outgoing_packet`; Ack: `ack_packet`, `selective_ack`;
--              Queue: the send queue as a list of slots, and `check_invariant`;
--              Written: the loop of `write_outgoing_packet`; Incoming: `utp_process_incoming`,
--              of whose parts Extension has the extension headers, Delay the timestamps,
--              Ccontrol `apply_ccontrol`, and Arrival the payload with the reorder buffer;
--              Timeout: `check_timeouts`;
--              Control: `utp_close`, `utp_shutdown`, `utp_read_drained`; Opening:
--              `utp_create_socket`, `utp_initialize_socket`, `utp_connect`; Writev: `utp_writev`;
--              Teardown: a RST in `utp_process_udp`, and `utp_process_icmp_error`
--   Context    utp_internal.cpp, utp_api.cpp: a context with its table of sockets and its list of RSTs.
--              Udp: `utp_process_udp` and the ICMP messages; Check: `~UTPSocket`,
--              `utp_check_timeouts`, `utp_issue_deferred_acks`; Checked: the loop over the table
--
-- How state and operations correspond. A function that changes a socket takes the record `Conn` and
-- returns the new one; `Conn` holds the socket's fields, grouped by purpose, and the parts of its
-- context that it uses. Unsigned integers are natural numbers with their wrap-around written out
-- (`add16`, `sub32` and so on); `x & mask` with a mask 2 ^ k - 1 is a remainder. Packets are not
-- pointers: a packet is named by its index in the send queue. The callbacks of the application are
-- the record `Env`, whose fields answer the n-th call arbitrarily, and the list `events` of what was
-- called; a callback that calls back into the library is not modelled. Assertions are left out of the
-- definitions: the theorems about well-formedness show what several of them assert.
--
-- Sockets are pointers in the source and numbers in `World`, which holds the socket of each number;
-- where the source allocates one, its number is an argument. The table of sockets has these
-- numbers. A hash table's array of elements is a function from indices, and the memory of elements
-- that were never written is arbitrary. `Read32` is that of a little-endian host.
--
-- The type `double` with its operations is the parameter `Double` of `apply_ccontrol` and of what
-- calls it. A pointer into a packet is the list of the bytes from there to the packet's end.
--
-- Fuel and bounds. `grown_size` doubles with `index` rounds, which suffice since the size is at
-- least 1; `write_loop` has two rounds, since the second always starts a packet that takes all
-- of the payload; `drain` takes the length of the list, and `reorder_loop` one
-- round more than the reorder buffer has slots, since each round but the last empties one;
-- `unpack` takes a round for each byte, and each consumes two or more; `skip_loop` takes the
-- packets of the window, and `writev_loop` one round more than there are bytes. `seed_loop` takes
-- any fuel: the code tries seeds until one is free. A search in a chain of the hash table has one
-- round more than there are used elements; the loop over the table one more than there are
-- sockets, since each round passes one; the loop over the RSTs one for each, since each
-- round passes one or removes one. The circular buffers have at most
-- 2 ^ 16 cells and grow for windows below 2 ^ 15 packets; the program keeps 1024.
--
-- Not modelled: logging, memory and its exhaustion, the forwarding of callbacks to function pointers,
-- the clocks of the operating system, the printing of addresses, the debug statistics, the members of
-- the Array template that manage memory, the destination of a datagram (a socket's go to its peer,
-- an RST to the sender of the refused packet), and the parts of the protocol that the list above does not
-- name.
pub mod Prelude
pub mod Seq
pub mod CircBuf
pub mod DelayHist
pub mod AckList
pub mod Mtu
pub mod Packet
pub mod HashTable
pub mod SockAddr
pub mod Socket
pub mod Context
