-- ===== src/Lib.antt =====
-- A model of the DHCP server of the firmware, with what makes it correct.
--
-- The firmware runs on an ESP32 and serves DHCP, DNS, NTP, a web interface and a file shell. This
-- library models the DHCP server, the part that gives the device its purpose: the packet path of
-- src/dhcp/DhcpServer.cpp with the three tables that it consults, and the text that it takes from
-- its clients. Of the web interface it models the gate in front of every request, the check of the
-- credentials with its lockout, and the path of an upload: the check of its request, the extractor
-- that takes it out of its multipart envelope, and the paths of the file explorer. Of the SSH shell it
-- models the paths, and of the code that the services share the arithmetic of subnets with the filter
-- over it, that of dates, and the registry of long-running jobs.
--
-- How the parts interact. serverLoop receives a datagram, purges the expired leases and calls
-- handleDhcpMessage. That reads the packet and its options, asks the allowed list whether it may
-- answer this client, and dispatches on the message type. DISCOVER chooses an address (the one
-- asked for, or selectIp's) and reserves it in the lease table for the hold of an offer; REQUEST
-- grants or refuses it and stores the lease; RELEASE erases a lease; DECLINE puts an address into
-- the hold-down table, which the selection and the grant then respect. An upload passes the check of
-- the credentials, its path the rules of the file explorer and its body the multipart extractor; while
-- it runs the job registry lists it. The filter of the own subnet decides with the arithmetic of
-- subnets whom the other services answer.
--
-- Files.
--   Base             the names that all modules share: Boolean tests with the ruleset `arith`
--                    (Base/Tests), lists and the pieces of a text (Base/Lists), 32-bit words and
--                    their byte order (Base/Words), and masks of high bits (Base/Bits).
--   Dhcp/Declined    src/dhcp/DeclinedAddresses.h: the hold-down table, a list of `capacity`
--                    entries for the array. Entries, Holding and Eviction are its proofs.
--   Dhcp/Mac         src/dhcp/DhcpAllowedList.cpp: parseMac, formatMac, normalizeMac.
--   Dhcp/AllowedList the same file: the hash table of allowed computers with its two buffers,
--                    and the policy. Probing, Contents and Rebuilt are its proofs. Codec has the
--                    text of the list, with src/core/StorageText.h; Stored, Lines and Budget are its
--                    proofs.
--   Dhcp/Leases      the map leases_ of src/dhcp/DhcpServer.h as an association list in the order
--                    of its keys; Leases/Laws has the laws of its operations.
--   Dhcp/ClientName  src/dhcp/DhcpClientName.cpp: the name a client gives, from options 12 and 81.
--                    Text and Clean are its proofs.
--   Dhcp/Server      src/dhcp/DhcpServer.cpp: the state and the operations on it. Packet has the
--                    layout of a packet and the option loop, Select has selectIp, Handler has
--                    handleDhcpMessage, the senders and the loop, Queries what other services ask
--                    of the leases. The other children are proofs: Invariant (the states that
--                    rounds of the loop reach), Requests and Acks (what an ACK says), Isolation
--                    (other clients' leases), Range (the selection), Replies (which reply is
--                    sent), Refusals (whom it ignores, what it withholds), Reads (what is read of
--                    the buffer), Filter (the access filter of other services), Faults (misread
--                    ranges), Unchecked (unchecked addresses).
--   Dhcp/Examples    sample servers and packets, and the theorems at work on them.
--   Web/Auth         src/web/AuthManager.cpp and src/core/AuthAttemptPolicy.h: the check of an
--                    Authorization header and the counting of failures. Headers describes
--                    what a header presents, Checks and Accepts have the proofs about one check,
--                    Lockout and Guesses those about sequences of requests, Examples runs them.
--   Core/Subnet      src/core/Subnet.cpp: addresses in text, netmasks, membership in a subnet.
--                    Text, Masks and Members are its proofs, Examples runs it.
--   Core/SubnetFilter
--                    src/core/SubnetFilter.h and SubnetFilter.cpp: whom the DNS, NTP and file
--                    services answer. Decisions is its proofs, Examples runs it.
--   Core/Jobs        src/core/JobRegistry.h and JobRegistry.cpp: the list of long-running
--                    operations. Slots, Updates and Search have the lemmas on the arrays, Board the view
--                    of the list as a map from names to records, Refines and Starting that the
--                    operations implement it, Faults what a full list does, Examples runs it.
--   Web/Multipart    src/web/MultipartExtractor.h and MultipartExtractor.cpp: the payload of an
--                    upload. Find has the lemmas on the search for a delimiter, Extraction and
--                    Feeding the state after any bytes, Payload the results, Examples runs it.
--   Storage/Path     src/storage/PathUtil.h and PathUtil.cpp: the paths of the file explorer.
--                    Segments, Normal and Children are its proofs, Examples runs it.
--   Net/ShellPath    src/net/FileShellPath.h and FileShellPath.cpp: the paths of the SSH shell.
--                    Inside and Moves are its proofs, Examples runs it.
--   Time/Math        src/time/TimeMath.h and TimeMath.cpp: dates, their text, Unix seconds.
--                    Calendar, Days, Seconds and Texts are its proofs, Examples runs it.
--   Files/Upload     src/files/UploadRange.h and UploadRange.cpp: the numbers of an upload request.
--                    Accepts is its proof, Examples runs it.
--
-- Conventions. A byte is a number below 256, a string a list of bytes, a hardware address a list
-- of six bytes. In Dhcp an address is the uint32_t that the source keeps, in network byte order as a
-- little-endian machine reads it: the last octet is the most significant byte, and `ntohl` swaps
-- the bytes. uint32_t arithmetic is written with its wrap-around. A handler takes the server and
-- returns the server after it with the list of its actions in order: the datagrams sent and the
-- events told to the REST logger.
--
-- The environment. The clock (esp_timer_get_time), the ARP cache and the ICMP echo of probeIp are
-- not code of the repository: they are the record `Env`, a parameter of every operation that asks
-- them. Each place that asks has its own reading (`Site`), because a probe takes seconds.
-- Nothing is assumed of one reading against another, except where a theorem names the progress of
-- the clock as a hypothesis (`WithinHold`). The base64 decoder of mbedTLS is a parameter of
-- `Web.Auth.verify`, another one for each request of a sequence, since after a failed decode the
-- source reads the memory of its stack. The ARP cache is a parameter of the queries in
-- Dhcp/Server/Queries. The lease time in an event for the REST logger is given by its 32 bits, which
-- the source casts to an int32_t.
--
-- Fuel. scan_options has 309 rounds for the 308 bytes of options, and each round moves on by a byte
-- at least. The loops of ClientName and of Core/Subnet have the length of their list, of which each
-- round drops a byte; the loop over the bits of a mask has 32 rounds.
-- select_ip takes its fuel as an argument and answers none when it runs out; in a range within one
-- /24 network a round moves the last octet on by one, so 256 rounds are enough.
--
-- Not modelled: the tasks, sockets and locks, the log lines, the loading of the configuration and
-- of the static bindings, the network probes of the name lookup, and the other parts of the
-- firmware (the DNS server with its caches, NTP, the rest of the web interface and of the file shell,
-- file transfers, the file systems, certificates, drivers).
pub mod Base
pub mod Dhcp
pub mod Storage
pub mod Net
pub mod Time
pub mod Web
pub mod Core
pub mod Files
