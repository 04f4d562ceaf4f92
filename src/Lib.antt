-- ===== src/Lib.antt =====
-- Flakkari: a UDP game server in C++. A server receives packets from clients, hands them to a client
-- manager, and puts the clients into instances of games, each with scenes of entities and components.
--
-- - Network/Address, Network/Socket: Flakkari/Network/Address.cpp and Socket.cpp as built for Linux, over
--   the calls of the system and its resolver of names.
-- - Network/Buffer, Network/PacketQueue: Flakkari/Network/Buffer.cpp and PacketQueue.hpp. A buffer is
--   the list of its bytes, a queue the list of its elements from the front.
-- - Network/IoMultiplexer: Flakkari/Network/IOMultiplexer.cpp, the descriptors that PSELECT, PPOLL and
--   WSA keep.
-- - Math/Vector: Flakkari/Engine/Math/Vector.hpp, over any arithmetic (Math/Arithmetic).
-- - Protocol/Packet, Protocol/Commands: Flakkari/Protocol/Header.hpp, Packet.hpp and Commands.hpp, the
--   V_1 header of 12 bytes, with <<, >>, injectString, extractString, serialize and deserialize.
-- - Protocol/PacketFactory: Flakkari/Protocol/Engine/PacketFactory.hpp, what the components of an
--   entity add to a packet.
-- - Ecs/SparseArray, Ecs/Registry, Ecs/Component, Ecs/Factory, Ecs/Systems:
--   Flakkari/Engine/EntityComponentSystem. A registry maps the numbers of types to arrays of optional
--   components. Ecs/Factory/Reading and Ecs/Factory/Registering read a template from JSON, and
--   Ecs/Systems/Spawning and Ecs/Systems/Colliding are the systems that place entities and let them
--   collide.
-- - Server/Client, Server/ClientManager: Flakkari/Server/Client. Clients stand in one heap that the
--   managers and the games share; a std::shared_ptr<Client> is an index into it, or none for null.
-- - Server/ResourceManager, Server/Game, Server/Game/Membership, Server/Game/Outgoing,
--   Server/GameManager: Flakkari/Server/Game, the templates, one instance, its players, what it sends
--   in a frame, and the instances with the queue of those who wait.
-- - Server/Game/Events, Server/Game/Floats: what the packets of a player do, with
--   Flakkari/Protocol/Events.hpp.
-- - Client/UdpClient: Flakkari/Client/UDPClient.cpp, against the server in its child modules.
-- - CommandLine, Logger: Flakkari/ParseArgument.cpp and Flakkari/Logger/Logger.cpp, as built for
--   Linux.
-- - Server/GameDownloader: Flakkari/Server/Internals/GameDownloader.cpp, with curl, libgit2, the file
--   system and what registering a game does as parameters; Transfers has a round of its thread.
-- - Server/CommandManager: Flakkari/Server/Internals/CommandManager.cpp.
-- - Server/Game/Updating: the systems with what they send, and a frame of a game.
-- - Server/UdpServer: Flakkari/Server/UDPServer.cpp, handlePacket over the three managers, and in
--   Server/UdpServer/Running the loop of the server over what each wait returned.
-- - Prelude: Boolean tests, lists, outcomes, dictionaries and bytes that the parts share. The child
--   modules of a part hold its theorems, and those called Tests its examples.
--
-- Operations keep their names, in snake case. A call ends with a value, by an exception, or with
-- undefined behaviour, which is written out wherever the code can reach it: an access past the end, an
-- invalid iterator, a null pointer; but `isConnected` tests `this` for null, and that test is taken as
-- written. Numbers are natural numbers with the wrap-around of their types
-- written out: std::size_t has 64 bits, an int 32, the length field and the warning counter 16.
-- Numbers are stored little-endian, and the first bit-field of a byte in its low bits. The clock is an
-- argument, read once a call. Each loop goes through a list or counts down, but for the one over the
-- arguments of the command line: it runs on rounds, of which one more than there are arguments is
-- enough.
--
-- Not modelled: what the system does with sockets, waits, threads and transfers; what the
-- JSON library, the file system, libgit2 and the arithmetic of floats compute, which are parameters or
-- interfaces, and so are the values of rand(); the V_0 protocol, Serializer and update_control, which
-- nothing uses.
pub mod Prelude
pub mod Network
pub mod Math
pub mod Client
pub mod CommandLine
pub mod Logger
pub mod Protocol
pub mod Ecs
pub mod Server
