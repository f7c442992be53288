-- ===== src/Lib.antt =====
-- A model of QCLib, a C++ library for game servers, and of the logic server that is built on it.
--
-- The logic server takes messages from its network thread and handles them in its logic thread. What the
-- players of a map see of each other is kept by `TowerAoi`, which cuts the map into areas with a tower
-- each; a tower has the objects that stand in its area and the watchers whose view reaches it. Clients
-- reach the logic server through the gate, which holds their sessions and wraps their messages.
--
-- Base: lists, integers and tests that all parts use. An `int16_t` coordinate is an integer with its
--   wrap-around written out, a size is a number.
-- LoopArray: commonsrc/include/containers_define.h, `LoopArray`, the ring buffer of messages.
--   `pop_front`, `push_back`, `clear`, `append` are its operations; `Inv` has its invariant, `Refine` the
--   bounded queue that it implements, `Append` the loop that moves elements from one array to another.
--   `append_loop` runs on fuel, the size of the source array, which each round lowers by one.
-- LogicThread: projects/logic_svr/logic_thread.cpp, the hand-over of messages between the threads.
--   `on_set_message` is `SetMessage`, `on_notify` is `Notify`, `on_poll` its call in
--   projects/logic_svr/logic_manager.cpp, `on_take` and `on_dispatch` are the two parts of `ThreadRun`.
--   `Drain` is about turns of the two threads.
--   A step is what one thread does under its lock or on its own data, and a schedule is any sequence of
--   steps. A call that waits has no effect. Starting and ending the thread are not modelled.
-- ObjectSet: `std::set<ObjectId>` as projects/logic_svr/tower.h uses it, as the ascending list of its
--   ids, and `TowerAoi::MoveOject`.
-- Aoi: projects/logic_svr/tower.h, tower_aoi.h and tower_aoi.cpp. `Init` has the constructor, `Ops` the
--   six operations of `TowerAoi`. A function that fills a set through a reference takes the set and
--   returns it, and an access outside `m_towers` has no result. The loops over an area count their rounds
--   before they start (`rounds`). `Grid` is about the numbering of the towers. `Seen` and `Track`
--   state what the towers have to show, given who stands and who watches where; `Paint` is about the loops,
--   `Watchers`, `Movers` and `Objects` about the operations, `Built` about the constructor. The grids
--   have as many columns as rows (`IsGrid`), since `TowerId` numbers the towers of other grids wrongly.
--
-- Table: the `hash_map` of the tables below, as pairs of a key and a value. Where several entries are
--   listed, their order is that of the list.
-- Game: projects/logic_svr/data_cache.cpp on the records of define_logic_data.h: the loaded players with
--   their view sets, and the object of each user. A reference to a view set is read and written by the
--   object's id. `saved` and `sent` collect what goes to the database and to the clients. `Tables` is about
--   the two tables; `Views` has the functions of projects/logic_svr/map_module.cpp that change who sees
--   whom, in pairs (`Pairs`), and `Removed` and `Added` say what they do.
--   `Chat` has chat_module.cpp. `Saved` has the macros by which a player becomes fields and values, and
--   `Stored` the functions that use them over the database cache, and the functions of
--   login_module.cpp that create a role and list the roles; `Listed` follows a role. Numbers are printed on twenty digits of
--   fuel, which 64 bits do not exceed. `LoadPlayerDataFromDb` and `EnterGame`, which calls it, are not
--   modelled: it calls `GetDataCacheAll` in a form that the cache does not have.
-- Game/World: projects/logic_svr/define_game_map.h, the operations of `MapModule` on maps and players and
--   `ClientReady` and `LoginOut` of login_module.cpp, with the map module in place. `Begin` has the map
--   that the server starts with, `Walk` is about
--   `IsGridCanWalk`. `Near` joins the view sets to the towers: `IsLive` is the invariant, and a
--   player comes (`Enter`), goes (`Leave`), moves (`Move`), logs in or out (`Login`); `Frames` has what
--   these operations leave alone.
-- Modules: projects/logic_svr/logic_module_manager.cpp, the modules by their ids, their registration and the
--   choice of the module for a message (`dispatch_module_message`).
--
-- Packets: commonsrc/include/base_define.h. A `Message*` points at a block of bytes, which is a list;
--   `get_le` and `le` read and write the fields, and an access outside a block has no result, but
--   for the ids that `AnalyzeSvrMsg` reads of a message shorter than they are, where the missing bytes
--   count as zeros. Sizes are computed modulo 2 ^ 32 or 2 ^ 64 as in the code (`packet_size`). `Memory` and `Built` are about
--   blocks, `Nested` about messages between servers, `Sent` about what goes over the wire.
--   `Frames` has commonsrc/include/function_for_muduo.h and the two loops of `onMessage`, over muduo's
--   `Buffer`, a record of its operations with the laws that muduo documents. The loops run on fuel; a
--   whole message takes at least sixteen bytes, so one round for each readable byte is enough.
--   `Stream` is about whole messages in the buffer, `Chunks` about their arrival in pieces, `Loops` about
--   the two loops, `Endless` about when they end.
-- Tcp: commonsrc/src/tcp_server.cpp. A connection is a number and its context a table; `send_msg`,
--   `dis_connect`, `on_connect`, `add_session` and so on are the functions of the class. `Links` has the
--   invariant of the tables, `Closed` and `Opened` the calls that end and begin a session, and `Reached`
--   the states that any sequence of calls leads to. `Ghost` is about two logins on one connection.
--   `Client` has commonsrc/src/tcp_client.cpp, and `Delivered` joins client and server.
-- Gate: projects/gate_svr/gate_manager.cpp, the four handlers of the gate (`on_gate_client_message` and so
--   on) over its two servers, with the generated messages and MD5 as a record of functions. `Relay`
--   follows a message through the gate.
-- Logic: projects/logic_svr/logic_manager.cpp, the thread of the logic server that talks to the gate. It
--   joins `TcpClient` to `LogicThread`; `Taken` is about the messages that it passes on.
--
-- Threads: projects/logic_svr/module_thread_group.cpp with `FuncAndDateBlockQueue` of
--   commonsrc/include/containers_define.h. The steps of a thread are those between two of its locks, or the
--   handling of one function or message (`thread_run`). `Deal` is about the group's round robin, `Order`
--   about a thread under any interleaving, `Turn` about its loop from one wait to the next.
-- Log: commonsrc/src/file_writer.cpp. The kernel's answers to `write` and `open` are arguments, so that
--   the loop of `write_file` recurs on the answers; as many as there are bytes are enough when each call
--   takes one. `Written` and `Kept` are about a kernel that takes bytes, `Failed` about one that
--   does not. `Logger` has commonsrc/src/logger.cpp, and `Lines` the lines that it makes.
-- DbGateway: projects/dbgateway/table_object_map.h and the reading of the configuration (`init_config`,
--   `get_bind_items`) of db_gateway.cpp; `Config` is about the indexes, `Items` about the names that a
--   separator joins, with a round of fuel for each byte. `Sql` has the way from Redis to MySQL, and
--   `Text` the statements; `Rows` has the way from MySQL to Redis, `Bound`, `Saved` and `Back`
--   follow a row. Redis is reached through the cache of `Redis.Cache`; MySQL is a record of the calls that
--   the gateway makes.
-- Redis: commonsrc/src/redis_client.cpp, the synchronous client, over hiredis as a record of the calls
--   that are made of it; `Cache` has commonsrc/src/db_cache.cpp. `Words` is about commands that hiredis
--   takes apart at their blanks, `Stored` about commands and replies, `Server` about the cache over a
--   server that keeps hashes.
-- Http: commonsrc/src/http_server.cpp, over the request and the context of muduo as a record of their
--   calls; `Server` has the connections and the answers. `parse_loop` runs on fuel; `Ends` has the
--   invariant of a connection, by which a round for each byte and one more are enough, and `Twice` is
--   about requests that are refused.
-- Names: `std::string` as a key, with `std::map` over such keys; `Ascending` is about their order.
--
-- Not modelled: printing (`TowerShow`), sockets, threads and the third-party libraries under
-- commonsrc/deps; the parts of the servers that are not named above.
pub mod Base
pub mod LoopArray
pub mod Log
pub mod LogicThread
pub mod ObjectSet
pub mod Aoi
pub mod Table
pub mod DbGateway
pub mod Game
pub mod Modules
pub mod Names
pub mod Packets
pub mod Redis
pub mod Http
pub mod Tcp
pub mod Threads
pub mod Gate
pub mod Logic
