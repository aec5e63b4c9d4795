-- ===== src/Lib.antt =====
-- SoftGRE: the C daemon `softgred`, a self-provisioning GRE Ethernet concentrator for Linux.
--
-- The daemon reads a copy of the GRE traffic, and for each new access point makes a tunnel, its
-- VLAN interfaces and the firewall rules for the client MACs that it sees. Its parts call one
-- another: the capture loop (src/payload.c) parses a frame and hands it to provisioning
-- (src/provision.c), which keeps two hash maps (src/hashmap.c) and drives the interfaces and the
-- firewall, as the settings (src/softgred_config.c) say.
--
-- Shared: names of the libraries, tests, arrays as lists, masks, and `Run`, in which undefined
-- behaviour (an index outside an array, a loop that does not end) is the value `fault`.
-- Keys: the function pointers `hash` and `equal` of a map as the record `Key`, and the functions
-- for addresses and texts.
-- Hashmap: src/hashmap.h and src/hashmap.c. `struct hashmap` is the record `Hashmap`, each function
-- is the definition of its name; its children are about what the table means (Slots), the probing loop
-- (Probe), well-formedness and lookups (Valid), writes of a slot (Update), rehashing (Rehash), the
-- operations (Methods), the iterator (Iter) and histories of calls (Lifetime).
-- Maps: what clients use of the hash map, as a record of operations and laws; Assoc fills it with
-- association lists, and Table with the hash map of Hashmap.
-- Payload: `payload_parse` of src/payload.c on a list of bytes, where a read past the end is a
-- fault; Safe and Accepted hold its proofs. Filter has the program that the kernel filters the
-- capture by, on any machine that runs it as its manual says.
-- Capture: `payload_receive` of src/payload.c, from `recvfrom` to `provision_packet`.
-- Provision: src/provision.c. The static variables are the record `State`; tunnel contexts are in a
-- heap by address, so that a dangling pointer is a fault. The kernel, the firewall and the clock are
-- the record `Host` of operations, whose results are arbitrary. Heap has the shared objects, Packet
-- `provision_packet`, Cleanup `provision_delall`; Owned has the invariant; Linked, Removal,
-- Creation, Learning, Capture and Emptied are about single operations, and Runs about sequences.
-- Compat: the character tests of src/compat.h and the text helpers of src/compat.c; Trim and Split
-- have what trimming cuts and which fields a splitting loop sees. StrBuf has the string buffer, byte by
-- byte over an allocator, and StrBuf/Holds what it holds.
-- Settings: src/softgred_config.h and src/softgred_config.c. Ini reads the file (the lines that
-- `getline` returns), Values single keys, Allow the allowlist, Bridges the map of the bridges, Load
-- the whole file and Cli the options (the results of `getopt_long`). `inet_pton` is a parameter. Each
-- has what it accepts in a child: Ini/Pairs, Values/Decimal, Allow/Blocks, Bridges/Mappings,
-- Load/Parts and Load/Ready.
-- Ebtables: src/iface_ebtables.c. The program that is run answers each command as it likes, by a
-- function of the commands so far, and the log of commands and answers is the state. Rules counts
-- commands, Hooks has the loops over the hooks, Quiet the other functions, Runs sequences of calls, and
-- Results what a result says.
-- Netlink: src/iface_gre.c and src/iface_bridge.c. The builder of requests is the parent's; Attributes
-- has the layout that the kernel's manual defines, Requests that the builder keeps to it, Decode and
-- RoundTrip the way back; Links has the functions over a kernel that is a parameter, Names the names
-- of interfaces, and Replies `link_send` on the kernel's replies.
-- Clients: src/service.c, the slots of the clients of the status service, whose commands and system
-- calls are parameters. Sane is about one slot, Rounds about a round, Runs about the main loop. Asked
-- has the commands that a round runs, so that the daemon can run them where they may fault.
-- Service: src/service_cmd.c. The parent has `valid_mac`, Commands `service_command` over the tables
-- of Provision and the string buffer of Compat/StrBuf; Answers and Located are about what it answers.
-- Log: src/log.c, over what `open`, `fstat` and `write` return; Lines is about the lines in the file.
-- Daemon: `main` of src/softgred.c from the test for root on: the start-up as the results of its steps,
-- the main loop as a list of rounds, and the end. Its provisioning, capture and status service are
-- those of Provision, Capture, Clients and Service. Rounds is about the loop, Exit about the whole.
-- Tests: runs of the code and the theorems at concrete inputs.
--
-- Bounds and fuel: the probing loop takes `cap` rounds, as in the source; the placing loop of
-- `resize` has no bound in the source and gets one round of the table, enough since the new
-- array has an empty slot.
-- Skipping outer tags takes two rounds, as in the source, and the search for a slot 4096.
-- The walk over a netlink datagram gets one round more than there are bytes.
-- The loop over `str_split_next` gets two rounds more than the text has bytes.
-- The doubling of a string buffer gets as many rounds as bytes are needed, and writing a log line as
-- many results of `write` as are given, of which one for each byte is enough.
-- Loops over the iterator get one round more than there are entries. Sizes do not wrap: `size_t`
-- could only past 2 ^ 60 slots.
--
-- Not modelled: allocation (the source aborts when it fails), the opening of the capture socket and of
-- the status socket, the PID file, the texts of messages, the helper process, stderr, the search for the
-- local address, and the fork at the start: their results are arguments where other parts use them.
pub mod Shared
pub mod Keys
pub mod Hashmap
pub mod Compat
pub mod Maps
pub mod Payload
pub mod Provision
pub mod Capture
pub mod Settings
pub mod Daemon
pub mod Ebtables
pub mod Netlink
pub mod Clients
pub mod Service
pub mod Log
mod Tests
