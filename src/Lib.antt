-- ===== src/Lib.antt =====
-- The EC200 driver: a C library that speaks AT commands to a Quectel EC200 modem over a UART that the
-- application provides as four callbacks.
--
-- The parts. src/ec200_at.c is the engine. It assembles received bytes into lines (rx_getc, rx_feed,
-- rx_line), tells final results from other lines and records the module's errors (is_terminal,
-- record_error), hands unsolicited lines to registered handlers, transmits commands under backpressure
-- (ec200_at_write_raw, at_transmit), and runs the transactions ec200_at_send, ec200_at_send_wait,
-- ec200_at_send_expect, ec200_at_send_await_urc and ec200_at_send_prompt, the waits, and the raw reads.
-- Every other file is a client of it: one or two transactions with a command built by snprintf and a parser
-- of the reply. All state is in one record, ec200_handle_t of include/ec200_types.h.
--
-- The files.
--   Prelude    names, tests and lemmas on numbers and lists that all parts share
--   Text       C strings and the functions of string.h and stdlib.h in use; Text.Laws their lemmas,
--              Text.Scanf sscanf with a format of %d conversions
--   Handle     include/ec200_types.h: the status codes, the handle, and the callbacks
--   Cast       the casts between integer types
--   Exec       state passing: an action takes the handle with the rest of the world
--   At         src/ec200_at.c. Rx: rx_getc, rx_feed, rx_line. Terminal: is_terminal, record_error,
--              map_error_terminal and the last error. Urc: dispatch_registered_urc, ec200_at_register_urc,
--              ec200_at_unregister_urc. Tx: ec200_at_write_raw, at_transmit. Transaction: copy_line,
--              receive_transaction and the loop on lines that the waits share. Command: the four
--              transactions. Wait: ec200_at_wait_prefix, ec200_at_wait_final, ec200_at_poll_urc. Prompt:
--              ec200_at_send_prompt. Raw: ec200_at_read_raw, ec200_at_read_exact. Field:
--              ec200_at_parse_int_field. The proofs: Valid (memory safety), Lines (lines against the
--              bytes on the wire; Lines.Exact and Lines.Byte the raw reads), Delivery (writes), Wire (what a
--              prompt command and its payload put on the wire), Silence (the waits write nothing),
--              Receiving (what the receiving side keeps), Returning (termination), Outcome and Sent (statuses and replies),
--              Table (the URC table as a map), Guarded (what the commands keep of the handle), Printed
--              (ec200_at_parse_int_field on a list of fields)
--   Query      the shapes in which clients call the engine
--   Core       src/ec200.c: ec200_init and the general commands
--   Ppp        src/ec200_ppp.c: ec200_ppp_dial, _escape, _resume, _hangup, _disconnect
--   Power      src/ec200_power.c: Timer the timer octets, Commands the transactions
--   Network    src/ec200_network.c: the registration queries and ec200_net_wait_registered; Signal: the
--              signal quality; Operator: the operator and the network information
--   Data       src/ec200_data.c: PDP contexts and the connection over them
--   Sms        src/ec200_sms.c. Header: extract_quoted, parse_cmgr_header. Inbox: ec200_sms_read,
--              ec200_sms_list. Submit: sms_submit, ec200_sms_send, ec200_sms_write. Parse and Settings: the
--              other commands. The proofs: Sizes and Listing (bounds), RoundTrip, Replies, Printed, Collected and
--              Reports (printed replies, and how ec200_at_send joins the lines of a listing)
--   Tcpip      src/ec200_tcpip.c. Socket, Receive (ec200_tcp_recv), Resolve (ec200_tcp_dns_resolve), Ping.
--              The proofs: Wire, Bounds, Replies
--   Mqtt       src/ec200_mqtt.c. Message: mqtt_recv_urc. Session: the commands. The proofs: Wire, Delivery,
--              and Callback, the way of a publication from the table to mqtt_recv_urc
--   Sim        src/ec200_sim.c: Card, and the codes of +CPIN in Codes
--   Ssl        src/ec200_ssl.c in Config, src/ec200_ssl_socket.c in Socket, the proofs in Guards
--   File       src/ec200_file.c; the proof in File.Wire
--   Http       src/ec200_http.c. Body: read_body_until_ok. Calls: the other functions. The proofs: Matching,
--              Storing and Search, a round of read_body_until_ok against the first trailer; Reading, its
--              loop; Wire, Results
--   Gnss       src/ec200_gnss.c
--   Time       src/ec200_time.c; the proofs: Printed (the numbers of a printed time) and Clock
--   Clients    a module for each client: what its commands keep of the handle, by the rules of
--              At.Guarded; ec200_init, the PPP calls and ec200_mqtt_set_message_cb set up what is kept
--   Tests      a scripted module, and the theorems at concrete inputs
--
-- How C is rendered. A C function on the handle becomes a function from `Sys W`, the handle and a world
-- `W`, to `Option` of its result and the new `Sys W`. `none` says that it has not returned after as many
-- reads or writes as the fuel counts; the fuel bounds the calls of one callback in a row and the lines of
-- a wait, and Returning, Delivery and Http.Reading prove how much is enough: for read_body_until_ok the
-- array's size, the timeout and 65543 together, since each round takes a byte or some of the timeout.
-- uint8_t, uint16_t and uint32_t arithmetic keeps its remainder where it can wrap around. An array is the
-- list of its cells. A write goes through `memcpy_at`, which makes a list longer if it is past the end, so
-- that the sizes in the invariant are the bounds of the writes, or through `set`, whose index the invariants
-- bound. A caller's buffer with its size is an array of that size, and a NULL pointer is `none`. A local
-- array is read only behind a success that wrote it.
--
-- Parameters. The callbacks write, read, delay_ms and the URC handlers are fields of `Platform W`,
-- functions on the world that get the function pointer, a number, as their first argument. What a theorem
-- asks of them is a record of named laws, Stream for the bytes received, Sink for the bytes sent and Quiet
-- for callbacks that write nothing, and Tests has a platform that satisfies them. The sscanf calls
-- of ec200_tcp_get_state, the signal, operator and network information getters and
-- ec200_gnss_get_location are arguments of the definitions that use them, and so are floating point numbers.
-- A URC handler acts on the world and does not call back into the library on the same handle.
--
-- Not modelled. A NULL handle, which every function refuses at once. The value of atoi and of sscanf's %d beyond int, which C
-- leaves undefined, and of strtol beyond long. The examples, the tests and the tools are platform glue.
pub mod Prelude
pub mod Text
pub mod Cast
pub mod Handle
pub mod Exec
pub mod At
pub mod Query
pub mod Core
pub mod Network
pub mod Data
pub mod Sms
pub mod Tcpip
pub mod Mqtt
pub mod Sim
pub mod Ssl
pub mod File
pub mod Time
pub mod Gnss
pub mod Http
pub mod Clients
pub mod Ppp
pub mod Power
mod Tests
