-- ===== src/Lib.antt =====
-- GLB director: a load balancer in front of the load balancers. A director takes a packet for a
-- service address, picks two proxy hosts for its flow from a precomputed table, and sends the packet
-- on to the first, with the second as a further hop in the GUE header. The proxy host accepts the packet if
-- it knows the flow, and forwards it to the next hop if not.
--
-- The files, and what they model (paths from the root of the repository):
-- - Base and below: library names passed on, lists and tests over native numbers, bits, the bytes of
--   a word, and sorting by a key.
-- - Siphash: src/glb-director/siphash24.c (Siphash/Reference) and
--   src/glb-hashing/glb_siphash24.h (Siphash/Limited), the keyed hash of both sides.
-- - BuildConfig: src/glb-director/cli/main.c. Backends and Binds turn what the JSON library returns
--   into the entries of the file (`inet_pton` and `atoi` are parameters, an exit is `none`; the arrays
--   have 256 places); Rows is the rows of the forwarding table by rendezvous hashing.
--   `build_rows` is the loop over the rows, with the array of backends passed from row to row as the
--   code leaves it; `qsort` is a parameter with the interface `Sorts`.
-- - Headers: src/glb-hashing/pdnet.h and glb_gue.h, each packed struct as a record with the bytes that
--   hold it on a little-endian host.
-- - Packet: src/glb-hashing/packet_parsing.h. `glb_extract_packet_fields` and its halves read headers
--   through a `Reader`, of which there are the two of the source: the one with a linearisation space
--   (DPDK) and the one in place (XDP). `glb_compute_hash` is hashing, with and without the guards for
--   the eBPF verifier.
-- - FwdConfig: src/glb-director/glb_fwd_config.h and glb_fwd_config.c, the table as the director
--   holds it, and `check_config`.
-- - Classifier: src/glb-director/bind_classifier.c and bind_classifier_rules.h. Rules writes the rule of
--   a bind, Create fills the two arrays and builds the classifiers (`create_bind_classifier`), Burst is
--   `classify_to_tables`. DPDK's access control lists are the parameter `AclApi`; Match and Documented
--   state what is relied on, SimpleAcl implements it. A burst has at most 255 packets, as its index is
--   an uint8_t; the worker's have at most 8.
-- - Encap: src/glb-director/glb_encap.c, glb_encap_dpdk.c and glb_encap_pcap.c: the route of a packet
--   (`glb_calculate_packet_route`), the headers (`glb_encapsulate_packet`) and the two modes around
--   them. What DPDK does to packets is the parameter `Mbufs`.
-- - Redirect: src/glb-redirect/ipt_GLBREDIRECT.c, the netfilter target of the proxy hosts, from
--   `glbredirect_tg4` down. The kernel is the parameter `Kernel`; a packet is a linear sk_buff, by its
--   bytes from the outer IP header on.
-- - Xdp: src/glb-director-xdp/bpf/glb_encap.c, the XDP program. Process is the way of a packet to its
--   route; Encapsulate makes the space, writes the headers and moves the counters, up to the whole of
--   `xdp_glb_director_process`; Checksum is `compute_ipv4_checksum`. The maps and
--   `bpf_xdp_adjust_head` are parameters.
-- - Kni: src/glb-director/glb_kni.c. Burst is what a core does with the interface to the kernel
--   (`glb_kni_safe_tx_burst`, `glb_kni_lcore_flush`), Calls is the calls of all cores, one after the other.
--   DPDK is the parameter `KniApi`, anew for each call.
-- - Config: src/glb-director/glb_director_config.c and glb_director_config.h. Cores reads the flow paths
--   and the cores, Load the rest of the file (`glb_director_config_load_file`). A load ends in a value, in
--   NULL, in the end of the process or in a write behind an array (`Loading`); jansson is the parameter
--   `Jansson`, and the two parsers of addresses are `Addresses`.
-- - Lab: lab/live_director.c, the checksums in software (`fixup_outer_checksums`) and the scan of the binds
--   (`classify_packet`) of the lab's director.
-- - Reload: src/glb-director/glb_control_loop.c, main.c and `processor_base_workload` of
--   glb_processor_loop.c: a step relation on the director's workers, rings and reference counts, for
--   the reload of the table and the stop. Messages of one reload go out one by one.
-- - Processor: src/glb-director/glb_processor_loop.c and util.h: what a core receives
--   (`processor_burst_rx_on_flows`), what a worker does with a burst (`process_burst`)
--   and what the transmitting core does with the packets that come back (`tx_turn`).
--
-- How the parts meet: BuildConfig writes the rows that FwdConfig checks and Encap looks up; Encap reads
-- the packet through Packet, which hashes with Siphash; the headers that Encap writes are what Redirect
-- reads on the proxy host. Classifier reads the binds of FwdConfig and says which of its tables Encap is
-- to use; Processor calls both for each burst, with the table that Reload has brought to the worker.
-- Xdp shares Packet and takes the place of Encap, as Lab takes that of Classifier, with the table of
-- FwdConfig. Config says what Encap and Processor are run with; what Processor gives to the kernel goes
-- through Kni.
--
-- Words of w bits are numbers with their wrap-around written out. A read outside of an array is `none`
-- where the code does not rule it out. Loops are recursion on their list or on the rows left; only the
-- folding of a checksum in Lab runs on fuel, of three rounds, which are enough for a sum of 32 bits.
--
-- Not modelled: the outer loops of the cores, setting up a KNI, the loop of the lab's director, start-up and
-- statistics output, the parts in Go, Python and Lua, and the libraries DPDK and jansson. They are input
-- and output for the most part, or calls of other libraries. Of glb_siphash24.h and siphash24.c the
-- variant DOUBLE is left out, which is not compiled.
pub mod Base
pub mod Siphash
pub mod BuildConfig
pub mod Headers
pub mod Packet
pub mod FwdConfig
pub mod Classifier
pub mod Encap
pub mod Redirect
pub mod Xdp
pub mod Reload
pub mod Processor
pub mod Lab
pub mod Config
pub mod Kni
