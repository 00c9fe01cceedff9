-- ===== src/Lib.antt =====
-- A model of DistributedDB: a key-value store whose keys, taken modulo 4000, are spread over a ring
-- of slave servers. A master keeps the list of slaves; each slave has a copy of the list, and so has
-- each client, which sends a request to the slave that its copy names.
--
-- The parts, and the code that each is about:
--   * Slaves: the slave list (server/ServerCtrl.h), AddNewSlave and RemoveSlave (server/slave.c);
--     the master's DelFromSlaveList (server/master.c) is the same code as RemoveSlave. Slaves.Wire
--     is the list as bytes in a packet.
--   * Ring: no code, but what a ring of keys is: the sections between consecutive keys go once
--     round the circle, and so every key lies in exactly one. The other parts are stated with it.
--   * Master: GetLength, FindLongestSection and AddToSlaveList (server/master.c), which put a new
--     slave in the middle of the longest section.
--   * Socket: the connections (common/Socket.c), over the system calls, which are a parameter (Os).
--   * Client: GetSocket (client/netdbapi.c), which finds the slave for a key (Client.Route), and the
--     client's calls with their way back to REDO (Client.Calls), over Socket; what they rely on of
--     the servers is Serving, a record of hypotheses. The calls take how often they may go back, and twice is enough.
--   * Cluster: the master and the slaves together: ADD_SLAVE and DEL_SLAVE of HandleRequest and
--     NotifyAll (server/master.c), and what HandleMasterRequest (server/slave.c) makes of the
--     messages. A request is one step, since the master handles it whole before the next one; the
--     network is a function from the master's connections to the slave processes.
--   * Cluster.Requests: the same on packets and connections: HandleRequest with its replies,
--     NotifyAll, and the start and loop of MasterProcess (server/master.c), over Socket, and at the
--     other ends RegisterAndLoadSlaves, HandleMasterRequest and ShutDownSlave (server/slave.c,
--     Cluster.Requests.Peers). A slave handles what it is sent before the master goes on, as NotifyAll
--     waits for it; the connections deliver (Carries), until
--     they are closed.
--   * Client.Parse: Parse (client/parseinput.c) and InputCmd (client/inputcmd.c), over regexec and
--     the calls of common/Database.h; Client.Parse.Denotes is the command that a line stands for.
--   * Protocol: the packets (common/dbProtocol.c), as bytes, and in Protocol.Fields by their fields;
--     commands are the enum CMD.
--   * CircularQueue: the queue between the server's loop and its worker threads
--     (server/CircularQueue.c).
--   * TcDb: the operations on data files (server/tcDB.c) over Tokyo Cabinet, which is a parameter:
--     a record of its calls, with what it documents of them as named hypotheses (Documented).
--   * TcDb.Registry: the open databases with their users (server/tcDB.c), over Tokyo Cabinet's
--     in-memory database; TcDb.Registry.Users is who has opened what, and
--     Server.Request.Users what the workers' requests make of it. TcDb.Api puts the data files
--     and the registry together as what common/Database.h declares, which the workers take as a
--     parameter (Server.Request.Database, with the contract IsStore).
--   * Slave: what a slave splits off its files for a neighbour, the file names and shell commands
--     that it makes, and the packets in which a file goes to another slave (Slave.Transfer), with
--     SendFile and RecvFile in lock step (server/slave.c).
--   * Server: the switch of HandleDBRequest (server/HandleRequest.c) over the database interface
--     (Server.Request), the table of connections (server/serversocket.c, Server.Connections) over
--     Tokyo Cabinet's in-memory database, the start of main and what the loop of server/dbserver.c
--     does with a descriptor that is reported, with the queue and its semaphore (Server.Dispatch,
--     Server.Loop), and a worker's whole round, from the queue to the reply (Server.Worker). A round
--     is one step, though two workers may be in theirs at once; DBSendMsg sends and then stores the
--     handle, which is one step too.
--   * Copies: the files of every slave, and what slaves do to each other's: HandleSlaveRequest,
--     CommunicateToSlave, InitialSlave, the repairs after RM_SLAVE and UPDATE_BACKUP12
--     (server/slave.c), and the master's alarm, UpdateBackup (server/master.c). All slaves have the
--     one file name that clients open. A file stands for the database in it; a connection that is
--     asked for is made, and an address reaches the slave that registered it. The repairs follow the
--     last RM_SLAVE_R, in the order of the list. Merge2Files leaves what it opens in the registry
--     (Held), so that a later merge may get a stale handle. Every tchdbopen is taken to succeed, also
--     where UPDATE_BACKUP2 opens, by another name, a backup that a merge has left open.
--   * System: clients, joins, leaves and alarms one after the other, composed from the other parts. A
--     client has the master's list, and a slave's worker writes through to the file.
--   * Tests: runs on small inputs.
--
-- Numbers are natural numbers. The keys are below 4000, so no sum of them is past 32 bits; the
-- version is counted modulo 2 ^ 32. An array is a list, and an access past its end is `none`, as is
-- a failed assertion. The loops run a number of rounds that is known when they start.
--
-- Not modelled: which descriptors epoll_wait reports, the delivery of signals, and the start and end
-- of threads (InitThreads, KillThreads); output (server/printslave.c); client/dbclient.c and reading
-- the arguments; and the wrapper server/MemoryDB.c: these are input and output, or calls of
-- libraries.
mod Common
pub mod Slaves
pub mod Ring
pub mod Master
pub mod Client
pub mod Cluster
pub mod Protocol
pub mod CircularQueue
pub mod TcDb
pub mod Slave
pub mod Copies
pub mod System
pub mod Socket
pub mod Server
mod Tests
