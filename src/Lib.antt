-- ===== src/Lib.antt =====
-- fast_mqtt: the packet codec, the stream reader, the packet identifiers, the outbound and
-- inbound flows of a connection, the topic rules and the subscription index of zmqtt, an
-- asynchronous MQTT client for versions 3.1.1 and 5.0.
--
-- The program. src/zmqtt/client.py is what an application uses. It opens a transport, and
-- src/zmqtt/_internal/protocol.py runs on it: the read loop feeds what it reads to a
-- `PacketBuffer`, and dispatches every packet that the buffer yields to the publish flows, to
-- the waiting acknowledgements or to the subscriptions; what it sends is encoded by
-- packets/codec.py. Packet identifiers come from the `PacketIdPool` of state.py, and an inbound
-- message goes to the most specific of the subscriptions that match its topic.
--
-- The files, and the code that they model (paths below src/zmqtt/_internal where no other is
-- given):
-- - Bytes, Cursor: what the code uses of Python's `bytes` and `struct`, and the walk of a
--   decoder over a fixed buffer with a variable `pos`. A byte string is a list of natural
--   numbers, an exception an `err` of Prelude.Outcome.
-- - Utf8: `str.encode("utf-8")` and `bytes.decode("utf-8")`, which packets/_wire.py calls. A
--   text is the list of its code points.
-- - Wire: packets/_wire.py. `encode_varint` and the others keep their names.
-- - Dict: Python's `dict` in insertion order.
-- - Property: packets/properties.py. Ids is `PropertyID` with the tables `_WIRE_*`; Block is
--   `encode_props`, `encode_props_block` and `decode_props_block`; Class is what the eleven
--   pairs `encode_*_properties` and `decode_*_properties` share, an interface that Connect,
--   ConnAck, Publish, Subscribe and Disconnect fill, one instance for each class.
-- - Packet: the dataclasses of packets/ and the enumerations of packets/types.py and types/.
--   `PubReply` stands for PubAck, PubRec, PubRel and PubComp, which have the same fields.
-- - Codec: packets/codec.py. Bodies and Encode are the encoders, Decode and Frame the decoders;
--   Received says what the other side has of a packet: in version 3.1.1 no properties and no
--   reason codes, properties without a field are None, and a packet identifier is only there
--   with QoS 1 and 2.
-- - Reader: packets/reader.py; Stream has a run over the buffer, which gives all its packets.
--   Reader.Loop is `_read_loop` of protocol.py on a list of reads: a packet is dispatched before
--   the next one is decoded, and an exception of `_dispatch` or of `decode` ends the loop; no
--   other coroutine runs in between. Disconnects is on the packet that ends it.
-- - Connection: `_dispatch` of protocol.py, on an `MQTTProtocol` with its inbound flow. Each of
--   the two keeps the packets that it wrote; `answers` is what the request router would say of
--   the messages to come, an input.
-- - Inbound: inbound.py, with the recipients of routing.py and the messages of types/message.py.
--   Buffer has the three replay states and their `accept`, Flow the receive flows of
--   `InboundPublishFlow`. `claimed` is the answer of the request router to the call of `claim`,
--   an input of the handlers. The closures `_puback` and `_pubrec` are the data type `Callback`;
--   a put on a queue is an entry of the list of deliveries. Drain is `drain`, `expire_replay`,
--   `_deliver_pending` and `_discard`, cut where they await: a run holds its messages in the
--   buffer's `delivery`, a turn of its loops offers one message, and whether the queue of its
--   subscription is full and how `deliver_replay` ends are inputs. Handshake is on QoS 2,
--   Bounded on the buffer, Kept and Turns on what a delivery leaves of it, and Events has the
--   relation of one event in any order.
-- - Topic: topic_matching.py, and types/topic.py in Topic.Validate.
-- - Subscription: subscription_index.py. The entries (without their queues, and with the
--   identity that `is` compares) and `_select_from` stand in Subscription; Node is the trie,
--   `add`'s loop, `_remove_entry` and `_collect`; Index is `SubscriptionIndex`. A call of
--   `match`, which is a word of Python, is `match_topic`, `by_identifier` is `identified_by`,
--   and `best` is the recipient of `select`. Tree, Collect, Added, Refinement and Identifiers
--   say what stands where, Sorted is on the order, Valid on the filters that are accepted, Calls
--   has the calls that change an index, with the table of entries that they mean, and Match the
--   queries against that table. `clear` and a new index are the same.
-- - State: of state.py the `PacketIdPool`; the set is the list of its elements.
-- - Future: asyncio's futures as the program uses them. The heap is a list, a future its
--   position there; `settle` is `set_result` or `set_exception` behind the test of `done()`.
-- - Protocol: `MQTTProtocol` of protocol.py with the flights of state.py: the state of a
--   connection, and what it has sent. Publishing is `publish` and the handlers of PUBACK, PUBREC
--   and PUBCOMP; Requests is `_send_subscribe`, `_send_unsubscribe` and `ping` with the handlers
--   of their answers, and `_cancel_pending`. A coroutine is cut where it awaits a future: the
--   part before it returns the future, and the part after it is a function of the future's
--   outcome (`publish_qos1_end`, `subscribe_end`) or of the state (`close_sub`). Steps is the
--   relation of one event, such as a call, a packet, an answer that a coroutine takes up, a
--   cancelled task, a change of the transport or the end of `run`; events come in any order.
--   Balance, Kept, Invariant and Tables are on the identifiers, Tracking, Closing, Pending and
--   Liveness on the futures, and Exchange on the acknowledgements of one publish. Connecting is
--   `_await_connack` at the first packet, where MQTTConnectError is raised without the
--   properties of CONNACK, Subscribing is `_subscribe` around its request, where what
--   `_send_subscribe` does is an input, and RollBack is on a request that fails.
-- - Examples: the theorems at concrete inputs.
--
-- Bounds and fuel. Numbers are natural numbers, and `struct.pack` and `bytes` refuse what is out
-- of range, as in Python. `encode_varint` runs four rounds, for the four groups of seven bits of
-- the largest value. The loop of `decode_props_block` has one round for each byte of the block,
-- and the lists of SUBSCRIBE and UNSUBSCRIBE one for each byte of the body: every round reads a
-- byte at least. The loop over a `PacketBuffer` has one round more than the buffer has bytes,
-- since a packet takes at least one. The search of `acquire` has 65535 rounds, one for each
-- identifier. Where rounds end first, a model returns `out_of_fuel`, which is no exception of
-- the program.
--
-- Not modelled: client.py, request_response.py, of inbound.py the task that waits for the
-- expiry, and a run of `_deliver_pending` that goes on after `clear` or `begin_session` has put
-- its buffer aside; the transports, which do I/O, and logging; of protocol.py the timeout of
-- `connect`, the end of the transport in `_read_loop`, the exchange of AUTH, the guards on
-- filters, `_unsubscribe` around the requests that it sends, the calls that add and remove
-- response observers and the clocks. In an outbound flow a write to the transport returns or
-- raises at once, and the subscriptions and the inbound flights of `SessionState` belong to the
-- inbound flow. The messages of exceptions are left out. `decode` gets its version from the
-- caller, except that CONNECT carries its own.
pub mod Prelude
pub mod Dict
pub mod Bytes
pub mod Cursor
pub mod Utf8
pub mod Wire
pub mod Property
pub mod Packet
pub mod Codec
pub mod Reader
pub mod Protocol
pub mod Topic
pub mod Subscription
pub mod Future
pub mod Inbound
pub mod Connection
pub mod State
pub mod Examples
