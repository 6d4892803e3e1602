-- ===== src/Lib.antt =====
-- A live streaming test plan for libp2p (plans/streaming_test/src): a streamer generates a video,
-- announces each segment as a list of CIDs, and viewers fetch the blocks and play them. Every node
-- runs a service that owns the swarm and a block exchange; clients send it commands.
--
-- * Exchange models ipfs/block_exchange.rs: which peer wants which block, and the blocks held. The
--   record BlockExchange has the source's five parallel vectors, and each method is a function of
--   its name (get_block, add_block, add_want, remove_want, remove_wants, the two iterators and
--   insertion_sort_wants). An iterator is the list of its items, where an item may panic.
--   Exchange.Represents is the abstract view: a list of (peer, CID) pairs in order. Exchange.Cases has
--   the test functions of the file, for any peers, blocks and random choices.
-- * Parallel models the insertion sort that the block exchange and the video player both contain.
-- * Client models ipfs/client.rs: the messages to the service, and in Client.Handle the methods of
--   IpfsClient, each up to its await; a new channel is the next number.
-- * Service models ipfs/background.rs: command, event, gossipsub, kademlia and bitswap are the
--   methods of these names, and Service.Run.run is the select loop over a list of turns. The swarm
--   and the channels are not part of the repository: what they answer in a turn is a World, and
--   what is asked of them is appended to the list `effects`. Maps are association lists.
--   Service.Sending says which block is sent next; Service.Filled and Service.Drain are about the
--   wants of peers and their cancels, one after the other, and Service.Stuck about a service whose
--   peers no longer cancel.
-- * Ipfs models ipfs/mod.rs: a client with its service. Ipfs.Reach is the relation of the steps, in
--   any order: a call of the client, the service taking a command, the service hearing an event.
--   An awaited answer is there, or pending, or its sender is gone, which is a panic. Ipfs.Fetch is the
--   task of video_player.rs that gets the blocks of an announcement; the futures that it joins are
--   polled in order, and a panic of one is a panic of all. Ipfs.Delivered is about two nodes: one has
--   the blocks of a segment and the other gets them. What libp2p carries between them, the wants,
--   the blocks and the cancels, is a hypothesis there.
-- * VideoPlayer models video_player.rs: add_gossip, add_segment, advance_stream, play and, over a
--   list of turns, the loop of run. The time of day is an argument and the metric that is recorded is a
--   result. What stands before the loop in run, the interval and the subscription, is run_video of
--   Roles.Viewer. The tasks that get the blocks of announcements are Ipfs.Fetch; the calls that they
--   make are not among those of the role that plays, whose turns say when a segment came.
-- * Blocks models generate_blocks and random_block of utils.rs; the random generator and the hash
--   are parameters. For a segment without a byte the counter of the source's loop wraps around, so
--   that it pushes blocks until memory ends; generate_blocks is then a panic for this reason.
-- * Network models data_network_ip of utils.rs; the interfaces and the subnet are parameters.
-- * Params models custom_instance_params of utils.rs; split, parse and HashMap are those of the
--   standard library, on texts as lists of code points. Params.Parts has the parts of a text at
--   its first separator, apart from split.
-- * Roles models roles/streamer.rs, roles/viewer.rs and main.rs. A role is a function of a node, its
--   client with its service and the requests to the test runner so far, to an End: it is done, or
--   returned early, panicked or waits. What the test runner accepts and what the service does while
--   a role waits is an Environment; libp2p's texts, the interfaces and the messages that come are
--   parameters. Roles.Enter has the part that both roles have in common, Roles.Addresses the loop
--   over the messages of the other nodes, Roles.Video the function generate_video. Roles.Neutral is
--   roles/neutral.rs, whose module roles/mod.rs has commented out. Roles.Streamed has the segments
--   that the loop of the streamer makes, and how a viewer gets them.
--
-- A call that panics in the source is an Outcome `panic`, with its reason. Unsigned 64-bit
-- arithmetic wraps, as in the release build of the Dockerfile. CIDs, peers, addresses, topics and
-- the senders of channels are numbers, which the source only compares; data are lists of bytes. Every
-- loop is structural recursion on a list or an index, so no fuel is used. A loop that would go on
-- until memory ends is a panic, too. A select loop runs over the turns that come.
--
-- Not modelled: log output, the recording of metrics, and the wiring of libp2p in
-- ipfs/composition.rs and ipfs/mod.rs. The test runner, libp2p, the encoding of an announcement, the
-- random generators and the hash are not part of the repository and are parameters.
pub mod Base
pub mod Parallel
pub mod Exchange
pub mod Client
pub mod Service
pub mod VideoPlayer
pub mod Blocks
pub mod Network
pub mod Params
pub mod Ipfs
pub mod Roles
