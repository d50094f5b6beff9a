-- ===== src/Lib.antt =====
-- Verification library of actorgo, a Go framework for game servers built from actors.
--
-- A client speaks AGP over TCP or WebSocket. A packet is framed (net/parser/tcp_packet_framer.go),
-- decoded and validated (net/proto/agp_codec.go, agp_validator.go) and handed to the connection's
-- state machine (net/parser/connection.go), which keeps a table of requests in flight, a bounded
-- write queue and a session, and is indexed by id and uid in the manager
-- (net/parser/connection_manager.go). The method table (net/method/table.go) names the actor that
-- serves a method, by a path (facade/message.go). A request becomes a message in that actor's
-- mailbox (net/actor/actor_mailbox.go), a lock-free queue (net/actor/queue.go) that wakes the actor's
-- loop (net/actor/actor.go), beside its events and timers. Calls also come over HTTP
-- (net/httpactor/handler.go) and from other nodes (net/cluster), and discovery (net/discovery) knows
-- the other nodes, whose ids facade/uid.go packs. The application (application.go) starts and stops
-- the parts.
--
-- Common            tests, lists, integers over the native numbers, maps as association lists, and
--                   the decimal numbers of Go's strconv
-- Proto.Limits      Limits, DefaultLimits, NormalizeLimits of net/proto/agp_validator.go
-- Proto.Packet      the messages of net/proto/agp.proto
-- Proto.Validate    ValidatePacket; its description and order independence in Validate.Spec
-- Proto.Codec       PacketCodec of net/proto/agp_codec.go
-- Proto.Session     the data of a session, net/proto/session.go; its laws in Storing
-- Parser.Framer     TCPPacketFramer; reading in RoundTrip, writing in Writing
-- Parser.Transport  packetTransport of net/parser/packet_transport.go, over TCP and WebSocket
-- Parser.Manager    ConnectionManager; OneToOne, Binding and Closing prove its laws
-- Parser.Options    Options and the With functions of net/parser/options.go
-- Parser.Connection Connection: State (its fields, enqueue, Close), Process (process and the
--                   handlers), Serving (handleRequest's end, Notify, Kick, GoAway, writeLoop, Run);
--                   Invariant, Packets, Rounds, Steps, Closing and Handshake prove its laws
-- Facade.Result     InvokeResult of facade/invoke_result.go
-- Facade.NodeId     the packing of node ids of facade/uid.go
-- Facade.Path       ActorPath of facade/message.go; printing and parsing in Path.RoundTrip
-- Method.Table      the method catalog of net/method/table.go; its laws in Catalog and Routing
-- Method.Invoker    the handler adapter of net/method/invoker.go; its laws in Laws
-- Discovery.Default DiscoveryDefault of net/discovery/discovery_default.go; its laws in Members
-- Discovery.Nats    DiscoveryNats of net/discovery/discovery_nats.go; its laws in Agreement
-- Actor.Mailbox     Register and decodePayload of net/actor/actor_mailbox.go; laws in Registering
-- Actor.Events      the event index of net/actor/system.go, and actor_event.go; laws in Delivery
-- Actor.Routing     Invoke and Notify of net/actor/system.go and actor.go; laws in Local
-- Actor.Queue       queue of net/actor/queue.go; Nodes, Chain, Shape, Fifo and Wakeup prove
--                   its laws
-- Actor.Timer       the timers of net/actor/actor_timer.go; its laws in Steps, Once and Removed
-- Actor.Loop        the loop of net/actor/actor.go and what it processes; Order and Ending prove
--                   its laws
-- Actor.Life        CreateActor of net/actor/system.go, newActor, initialize and onStop of
--                   net/actor/actor.go; Starting and Creating prove its laws
-- Actor.Family      parents, children and System.Stop, with net/actor/actor_child.go; Counting,
--                   Ending and Stopping prove its laws
-- Http.Options      the options and the timeout of net/httpactor
-- Http.Route        paths, content types and statuses of net/httpactor/handler.go
-- Http.Handler      ServeHTTP of net/httpactor/handler.go; laws in Access, Outcomes and Table
-- Cluster.Message   the messages between nodes, net/proto/cluster_message.proto
-- Cluster.Serving   process and reply of net/cluster/nats_cluster/cluster.go; Answers says what an
--                   answer is
-- Cluster.Client    Publish and Request of the same file, buildClusterMessage of
--                   net/actor/system.go, and how a request meets the node that serves it
-- Cluster.Workers   the queue, the workers and Stop of the same file; its laws in Draining
-- Cluster.Rabbit    process, reply, Publish and Request of net/cluster/rabbitmq_cluster/cluster.go,
--                   with many requests at once; Waiting, Matching and Answering prove its laws
-- Application       Register, Find, Remove and Startup of application.go; laws in Names, Life and
--                   Mirror
-- Serializer        the registry of net/serializer/registry.go; its laws in Stable
-- Profile           GetNodeWithConfig of profile/node.go; its laws in Selection
--
-- Go's int, int32 and int64 are integers without a bound where the code only compares them; a
-- uint32 keeps its wrap-around where the code converts to it. Durations are nanoseconds. A Go map
-- is an association list whose order is the order of a range over it. The counts of queues are
-- int32 as 32 bits that wrap.
--
-- A function under a lock is one step. A connection's goroutines are steps of `Step` in any order:
-- Run reads a packet, tests the state, acts on what it saw, leaves; the end of a handler; a round of
-- the write loop; a push; the test of Kick or GoAway, and their store; Close; and a Bind. What Run
-- does after its test (a slot and its handler, a dispatch, or Ready and the answer) is one step, as is
-- the store of Draining with its packet. In the queue a Push is
-- three steps (swap, link, count), and other producers and the consumer come between them; a Pop is
-- one step, since there is one consumer. A nil value is never pushed, as Push returns at once.
-- In the actor's loop the counts of the mailbox and the events lag behind what is in them, as Pushes
-- in flight have yet to count, and the loop reads one count after the other. CreateActor and Create of a child test the id in one step and store
-- in another.
--
-- An actor's loop takes its channels in the order of a list of choices, as a select may. The workers
-- of a cluster, the requests over RabbitMQ, the timers and the goroutines of a system are step
-- relations too: a step is what one goroutine does under its lock or between two waits, and others
-- come between in any order. In Discovery.Nats a message arrives at once, so registrations do not
-- race.
--
-- The one loop of a function without a structural bound is writeFull, which runs on fuel of one more
-- than the bytes to write: each round that goes on takes at least one.
--
-- Not modelled: sockets, connectors and the connections to NATS and RabbitMQ, whose deliveries are
-- steps or hypotheses; the discovery over etcd, which is glue to its client; the bytes of protobuf
-- and of the body codecs (parameters whose documented laws are hypotheses); the user's callbacks,
-- which are parameters or steps; logging; the loading of profiles and data configuration, which
-- read files; the components over storage libraries; the libraries that the repository copies
-- (snowflake, mapstructure, base58, rotatelogs) and the helpers under extend other than the
-- conversions of Proto.Session.
pub mod Common
pub mod Proto
pub mod Parser
pub mod Facade
pub mod Method
pub mod Discovery
pub mod Actor
pub mod Http
pub mod Cluster
pub mod Application
pub mod Serializer
pub mod Profile
