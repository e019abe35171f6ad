-- ===== src/Lib.antt =====
-- A model of libdill, a library that carries logs and registers from programs to viewers over TCP.
--
-- The parts. A publisher posts logs through a log agent (libdill/src/log.cpp), which queues them and
-- sends them as parcels (libdill/src/protocol.h) over a client connection
-- (libdill/src/client_netio.cpp). The server (libdill/src/server_netio.cpp) accepts connections
-- (libdill/src/server_conn.cpp); a connection that sends PUBLISH becomes a publisher of a channel
-- (libdill/src/server_channel.cpp), which keeps the latest logs and all registers and sends what it
-- gets to its subscribers. A subscriber (libdill/src/subscribe.cpp) turns parcels into events, and
-- asks the server for its channels. Programs use the functions of libdill/inc. The viewer (dlv) is a
-- subscriber with a window: its application keeps the channels, its frame a page for each subscribed
-- one.
--
-- The files.
--   Base: bytes, the faults, results, lists, ordered sets and maps of strings.
--   Protocol: `DillParcel` with `inflate` and `deflate`; Protocol/Ops has the constants,
--     Protocol/Wire the numbers on the wire, Protocol/Size the lengths, Protocol/RoundTrip the
--     round trips.
--   Channel: `DillServerChannel`; its methods are functions to the new channel and the writes asked
--     for. Channel/Purge is about the purge loop, Channel/Update about logs in `updateChannel`,
--     Channel/Registers about registers, Channel/Subscribers about attaching and detaching, and
--     Channel/Sends about what is sent.
--   Server: Server/State is the state of `DillServerNetIoCallable` with the connections and the
--     operations that `boost::asio` has been handed; Server/Registry the list of channels,
--     Server/Connection the handlers of a connection, Server/Loop the event loop, Server/Event the
--     events. Server/Safety is about deleted connections, Server/Channels about what holds of all
--     channels and events in every reachable state, Server/Frames and Server/Replies about the wire
--     and the replies.
--   Client: `DillClientNetIoCallableImpl`; what it calls of its host is returned as an `Upcall`.
--   Agent: `DillLogAgentCallable`, with what holds while logs flow in Agent/Flows and the
--     order of its queue in Agent/Queue, with logs posted too early in Agent/Early, and with what an
--     error leaves behind in Agent/Stale.
--   Subscriber: `DillSubscriberCallable`, with what reaches it in Subscriber/Delivery and its
--     questions to the server in Subscriber/Rpc.
--   Session: a subscriber and a server at the two ends of a connection (Session/Question), the viewer
--     that asks a server in one of its reachable states (Session/Status), and a log on its way from
--     the agent of a publisher to a subscriber (Session/Journey, with the server's part in
--     Session/Forward).
--   Api: the exported functions over their global pointers.
--   Viewer: the log viewer. Viewer/Events are the data of dlv/dlv_dillevt.h. Viewer/Widgets and
--     Viewer/Desktop are what is relied on of wxWidgets: list controls and a notebook, as records of
--     their operations and laws. Viewer/Page is `DlvChannelPage` of dlv/dlv_channelpage.cpp, with its
--     list of logs in Page/Rendering and Page/Rows, its registers in Page/Registers and Page/Latest.
--     Viewer/App is `DlvApp` of dlv/dlv_app.cpp, with `refreshChannelData` in App/Refresh and
--     `updateConnectionStatus` in App/Mirror. Viewer/Frame is `DlvFrame` of dlv/dlv_frame.cpp; a page
--     is named by its address in a heap, Frame/Sound says what holds between channels, pages and
--     tabs, Frame/Steps and Frame/Handlers that the operations keep it, and Frame/Failed is about a
--     call that fails. Viewer/Dialog is `DlvSubscribeDialog` of dlv/dlv_subscribedlg.cpp and the
--     events of the frame, with Dialog/Safety about whole runs of the frame, and Dialog/Checks and
--     Dialog/Outcome about the checks of the dialogue, and Dialog/Clicks about clicks on the entries of
--     the menu bar and the tool bar, which are Viewer/Bars.
--   Tools: the programs under tools. Tools/Publisher is tools/publisher/publisher.cpp, with the words
--     of a line in Publisher/Words and the end of the program in Publisher/Quit. Tools/Console is
--     tools/subscriber/subscriber.cpp and tools/server/server.cpp, with what is printed in
--     Console/Prints and Console/Reports, and the commands in Console/Commands.
--   Lifetime: what is allocated with `new` and deleted, and the two threads that do it, turn by turn.
--     Lifetime/Server is about the thread and the destructor of libdill/src/server_netio.cpp, with the
--     pointers in Server/Memory and Server/Teardown, what turns can run into in Server/Threads, what
--     is freed in Server/Released and the end of the destructor in Server/Ends. Lifetime/Agent is about
--     libdill/src/client_netio.cpp and libdill/src/log.cpp, with the handlers in Agent/Steady, the
--     pointers in Agent/Memory, what turns can run into in Agent/Races, Agent/Faults and
--     Agent/Happens, and the end of the destructors in Agent/Ends.
--   Tests: runs at concrete input; Tests/Desk has list controls and a notebook as lists.
--
-- How the state corresponds. Integers are natural numbers, with `% 2 ^ 32` and `% 2 ^ 16` where the
-- code wraps; a subtraction that may wrap adds 2^32 first. A string is its bytes, and `c_str` cuts it
-- at the first zero byte where the code passes a C string. A connection of the server is named by its
-- address; an access through the address of a deleted connection is the fault `use_after_free`, the
-- assignment of a null pointer to a string is `null_string`, a read beyond a buffer or the front of
-- an empty queue is `out_of_bounds`. In Lifetime each pointer member tells whether it is unset, null,
-- or points to something that is there or deleted, and the wrong uses of these are faults too; a turn
-- of a thread goes up to its next access of what the threads share. `boost::asio` is the list of
-- pending operations, of which any may complete next, with success or an error. Uninitialised memory is an argument: the contents of a
-- new buffer, the address of a new connection, `junk`. The loops of the code run over lists; that of
-- `refreshChannelData`, which asks the server each time whether a channel is missing, and that of
-- `tokenize`, which cuts words off a text, have fuel. One round more than the server has channels is
-- enough for the first, and one for each byte of the buffer for the second. The pages of the viewer
-- are named by their addresses, and the address of a deleted page is not given to another.
--
-- What is not modelled: the traces; the layout of what the programs print; of the viewer the
-- icons, layout and texts, the file dialogues, and the recording of logs, which the code does not
-- do; the events that a modal dialogue lets through, which come before or behind it here; the
-- addresses and sockets behind `boost::asio`, whose effect is how operations complete; the mutexes, since
-- each critical section is one function here (the destructors of the subscriber are like those of the
-- log agent, and are not modelled turn by turn), and the pause before a new attempt to connect; what
-- happens between the test of `_loggable`, which `post` makes outside the lock, and its lock, or between
-- the setting of `_on_rpc` and the wait behind it, although the handlers write `_on_rpc` and notify
-- without the lock, since `post` is one step here and these two are one; the
-- order in which `boost::unordered_map` lists registers, which is here the order of first insertion.
pub mod Base
pub mod Protocol
pub mod Channel
pub mod Server
pub mod Client
pub mod Agent
pub mod Subscriber
pub mod Api
pub mod Viewer
pub mod Tools
pub mod Session
pub mod Lifetime
mod Tests
