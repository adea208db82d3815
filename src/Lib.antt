-- ===== src/Lib.antt =====
-- distadm keeps a group of machines in one state: each node creates commands (add a user, spread a
-- file, run a program, remove a node), passes them on through packets or the network, executes every
-- command once and forgets it when all nodes know it. The modules model the part of the program
-- that decides this, and the routines it rests on.
--
--   Uuid        uuid.cpp: UUID as bytes, and as the number that the other modules carry.
--   Matrix      core.h, core.cpp: struct Node and struct Matrix. Each node has a row that says how many
--               commands of each node it knows. `update` merges the matrix of a packet, `resize` lets
--               a node join, `del` removes one. The loops are in Matrix.Update and Matrix.Resize;
--               Matrix.Wire is how a matrix is sent.
--   Messages    core.h, core.cpp: MsgId and Msg, and the set of messages as an ordered list.
--   Usernames   usernames.cpp: the accounts that are spread between the nodes.
--   Text        utils.cpp: split, splitq, quote_string, dequote_string, print_list, on bytes.
--   Core        core.h, core.cpp, commands.cpp, bdmsg.cpp: the state of a node. Core.Create has
--               create_command; Core.Receive add_cmd; Core.Commands the executors of commands.cpp;
--               Core.Execute the loop that executes; Core.Remove remove_old_commands and bdmsg.cpp;
--               Core.Check check_matrix; Core.Packets read_packet_v1, pending_commands and the queries;
--               Core.Info update_info and what it calls; Core.Invite create_group, how a node is
--               initialized and how an invitation is finalized, with Core.Trailer for the ids that an
--               invitation file collects.
--   Interactive incm.cpp, interactive.cpp: the commands that are typed. Interactive.Segments has
--               incm_addfile, Interactive.Queue incm_queue, Interactive.Table `incm_list`,
--               Interactive.Dispatch interactive_exec, Interactive.Completion the words of a line.
--   Io          utils.cpp, ccstream.h, ccstream.cpp: the loops over read(2) and write(2), and in Io.Buffer
--               the caches of Istream and Ostream over them.
--   Dates       locdatetime.cpp: the text of a date and of a time.
--   Stream      ccstream.cpp: how a file is sent within a packet, and read or skipped there.
--   Hash        sha.cpp: the hexadecimal text of a SHA256.
--   Net         corenet.h, corenet.cpp: class CoreNet, which node has which address, which address to
--               call and which message to ask for. Net.delnoderecord is the override.
--   Helo        daemon.cpp: TCPheloNB, the hello that is read and written without blocking.
--   Daemon      daemon.h, daemon.cpp: datagrams that arrive, the connection that the server thread gets,
--               and how the two sides of a connection begin.
--   Session     daemon.cpp: TCPsession_v1, two nodes that ask each other for the messages they lack.
--   Crypt       ccstream.cpp: the encrypted streams ICstream and OCstream.
--   Config      config.cpp: the configuration file and the packet file of the user; IFName of
--               network.cpp.
--   Unix        daemon.cpp, utils.cpp: the lines over the Unix socket between an interface and the daemon.
--   Params      main.cpp: the options of the program.
--   Examples    the theorems at concrete inputs.
--
-- Core uses Matrix for the rows, Messages for the commands and Usernames for the accounts. A method
-- that changes `this` is a function from a Core to a Core; CoreNet has a Core as its base. An exception
-- is `none`. What the program does to the machine is a list of effects in the state. A `std::map` is
-- the list of its entries in order, and that the keys ascend is the condition Ascends of Matrix.Shape;
-- IsSquare adds that every row has one cell for each node. The invariant IsSound of Core.Pending says
-- that the matrix is square, that the numbers leave room to count on, and that a command that my row
-- claims and that is not executed is among the messages; IsRunning of Core.Running adds that the node
-- has its own entry, and Core.Run has the runs of a node as sequences of steps.
--
-- A size_t wraps at 2 ^ 64 where the program counts up (inc64); theorems that need it ask for room
-- for one more. The loop of add_cmd over known numbers runs on fuel of one round for each message
-- and one more. splitq runs on one round for each byte and one more, the loops over a file
-- and the encrypted streams on one round for each byte, where a round takes up to 65536. check_matrix takes one round for each
-- number between what is executed and what is claimed. execute_pending_commands and pending_commands
-- take their fuel as an argument: for the first, one round more than the weight of Core.Weights, two
-- for each shell command that waits and one for each other command, is enough while no message
-- removes the record of a node, and no theorem bounds the second. A session takes fuel for each of its
-- three parts, one round more than the messages that are to be loaded.
--
-- Taken as parameters: the cipher of GnuTLS and SHA1 (Crypt.Cipher, Crypt.Sha), the options that
-- getopt gives, the names of the interfaces that are up, what the system calls reply, the shell,
-- the clock, the text of a UUID, the random draws, std::sort, the facts of the machine that
-- update_info announces (Core.Info.Facts), and what an interactive command asks of the machine
-- (Interactive.Shell), with the member functions that it calls for invitations and packets. Not
-- modelled: JSON text, the wire format but for that of a matrix, compression, the encryption of
-- datagrams, sockets, the polling loop of the network daemon, the user interfaces, and the file
-- system but for the names of what is removed.
pub mod Prelude
pub mod Uuid
pub mod Matrix
pub mod Messages
pub mod Usernames
pub mod Text
pub mod Hash
pub mod Stream
pub mod Core
pub mod Net
pub mod Helo
pub mod Examples
pub mod Config
pub mod Crypt
pub mod Daemon
pub mod Dates
pub mod Interactive
pub mod Io
pub mod Params
pub mod Session
pub mod Unix
