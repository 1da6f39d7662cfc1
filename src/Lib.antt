-- ===== src/Lib.antt =====
-- A verification library for unfsclient, an NFS version 3 client in user space.
--
-- The program sends RPC calls over a TCP connection that may or may not block, and hands each reply
-- to the callback that was registered with the call. src/nfsv3/nfs3.c offers one call for each NFS
-- procedure and functions that read the messages; the messages are written and read by
-- src/nfsv3/nfs3_xdr.c; src/clnt_tcp_nb.c frames them as RPC records (RFC 1831), queues what cannot
-- be written yet, puts received bytes together to records and finds the callback of a reply.
--
-- Rpc/ models src/clnt_tcp_nb.c and the macros of include/clnt_tcp_nb.h.
--   Rpc/Types: struct ct_data as CtData, struct rpc_record_state as RpcRecordState, struct
--     frag_buffer as FragBuffer. A pointer into a buffer is an offset, a linked list is a List.
--     CtData also holds two histories: the callbacks run and the bytes that write(2) accepted.
--   Rpc/Fragment: add_buffer_list, update_new_frag_state, collate_buf_list.
--   Rpc/Reply: call_user_cb. Rpc/Reply/Answer says what it promises on an abstract view: the calls
--     that wait, the bytes received and the callbacks run.
--   Rpc/Receive: update_record_state and update_frag_state. Below it: Well and Rounds have the
--     well-formed states and the steps on them, Progress is about the termination of the loop,
--     Feed, Append and Stream about how the bytes are cut into reads, Framing, Deliver and Stream
--     about whole messages, Faults about two kinds of legal stream that the code does not handle.
--   Rpc/Send: send_buffers and writetcp_nb. Send/Queue and Send/Bytes are about the order and the
--     count of the bytes, Send/Complete about when a flush ends.
--   Rpc/Create: clnttcp_b_create, clnttcp_sock_setflag, clnttcp_nb_create; Create/Ready is about
--   the
--     state that they make.
--   Rpc/Client: rpc_cb, clnttcp_nb_receive and clnttcp_nb_call. Client/Sends is about what these
--     leave alone, Client/Collects about when rpc_cb returns, Client/Pending about the count of
--     pending calls, Client/Xids and Client/Calls about the xids of calls after one another,
--     Client/Callback about a call and its reply.
-- Xdr/ models src/nfsv3/nfs3_xdr.c, with the types of include/nfs3.h. A routine xdr_NAME is a
--   Codec: what it does for XDR_ENCODE and for XDR_DECODE. A struct is a record, a union is a pair
--   of its discriminant and the arm that this selects. A linked list is a List; the routine of a
--   node takes the routine for the pointer at its end, and `chain` ties the two, as deep as the
--   stack is. Each file has the routines of a few procedures, and Xdr/Laws has a file about each
--   of these.
-- Nfs3/ models the messages of src/nfsv3/nfs3.c: the procedures and their routines (Procs), the
--   xdr_to_* functions (Convert, Dispatch, Messages, Payload), and nfsstat3_to_errno (Errors).
--   Small is an XDR library for the tests.
-- Nfsclient/ models the client library. Context is the nfs_ctx of src/nfsclient.c, whose blocks
--   are taken from and given back to the heap of Memory; Call is nfs3_call and mount3_call with the
--   calls above them, which make a handle when there is none and use the RPC client. Reply is about
--   a call and its reply from end to end, Complete is nfs_complete and mnt_complete. Mount is the
--   xdr_to_* functions of src/nfsv3/mount3.c, and Stats the counters of src/nfsv3/nfs3stat.c.
-- Daemon/ models the daemon. FUSE calls nfscd_lookup, which puts a request into the metadata queue;
--   the actors are threads that take requests from it and make NFS calls.
--   Daemon/Queue: a queue of src/nfscd_ops.c with its mutex and its semaphore. Every thread stands
--     before a statement (Pc), and a Step is one statement of one thread; Reach is what any number
--     of threads can get to. Invariant, Moves, Safety and Progress are about all interleavings,
--     Rest is about how the calls in progress end.
--   Daemon/Actors: the list of actors, their start, nfscd_notify_actor_exit, a round of
--     nfscd_actor_monitor and the end. pthread_join returns for the threads that end, by a
--     parameter, and blocks the monitor for any other. Monitor, Pool and Exit are about these.
--   Daemon/Contexts: the pool of client contexts of an actor, and that it is given back whole.
--   Daemon/Start: init_nfsclientd_context of src/nfsclientd.c, nfscd_init and nfscd_destroy.
--   Daemon/Main: main of src/nfsclientd.c, over the answers of libfuse and the resolver.
--   Daemon/Actor: what src/nfs3actor.c does with requests and replies.
-- Prelude/ has what these share: results that can be a fault or run out of fuel, lists and tests.
--
-- What the program does not hold is a parameter. Host is malloc, the contents of fresh memory, and
-- xdr_replymsg; Ght is the hash table of libghthash, with what its header documents in GhtLaws;
-- XdrLib is the XDR primitives of glibc, with RFC 1832's promises in XdrLaws; Net is the sockets,
-- the port mapper and the clock; `marshal` and `rec_stream` are the record stream that turns a
-- call into buffers, and begins every call empty; `tids` is what pthread_create gives. The
-- answers of malloc to the client library are a list that Memory holds. What write(2) and read(2)
-- come back with is a list that the model takes as it is.
--
-- A write outside a buffer is the result `fault`. Loops run on fuel, and `stuck` is a loop that ran
-- out of it: update_frag_state has a round for each byte, since a round consumes a byte when memory
-- is found; send_buffers has a round for each outcome of write(2) in its list, and rpc_cb for each
-- read(2).
--
-- A round of the monitor visits at most two actors for each that is listed, which is its fuel. The
-- XDR routines of linked lists call themselves at most `depth` times, a parameter that stands for
-- the stack, and refuse what is longer.
--
-- Sizes and counts are natural numbers: a fragment is shorter than 2 ^ 31 bytes by its marker, and
-- the counters of bytes, of threads and of the semaphores are taken to be wide enough. sem_wait is
-- taken to return with a token and not because of a signal, and threads are not cancelled inside
-- the queue functions. Closing connections, errors of select(2), the free_* functions, the loop
-- of an actor and the printing of statistics are not modelled.
pub mod Daemon
pub mod Nfs3
pub mod Nfsclient
pub mod Prelude
pub mod Rpc
pub mod Xdr
