-- ===== src/Lib.antt =====
-- golang_tools: a library of Go packages for game and messaging servers.
--
-- The package kcp (kcp/define.go, kcp/kcp.go, kcp/parse.go, kcp/seg.go) is a reliable transport over
-- datagrams. An application hands buffers to Send, which cuts them into segments for Snd_queue; Flush
-- moves those into Snd_buf as the windows allow and hands datagrams to the callback Output. Input
-- takes a datagram of the peer apart: Parse_Una, Parse_Ack and Shrink_Buf clear Snd_buf, Ack_Push
-- notes what is to be acknowledged, Parse_Data passes data on through Rcv_buf to Rcv_queue, and
-- Update_Ack keeps the timeout. lib/compare.go has the smaller and the larger of two numbers.
--
-- The package net serves clients: tcp/tcp.go and http/http.go accept connections, and for each of them
-- clientConn/client_conn.go or clientConn/client_conn_http.go runs three goroutines: ReadRecvMsg takes
-- messages from the connection and hands them to DeliverRecvMsg, which asks the session and hands the
-- answer's frame to WriteMsg. The package app has the registry: it reads flags and the configuration, runs
-- tasks, sets the applications up and waits for their end; an application starts servers of net and of
-- rpcx. The package dfs stores objects with one of three services, mq/rabbitmq sends and receives events,
-- and zlog keeps log files: Write of zlog/lumberjack.go appends to a file whose name has the time, and
-- millRunOnce removes and compresses old files.
--
--   Base              names, tests, lists, integers, words, results and slices for all modules
--   Compare           lib/compare.go
--   Kcp/Define        kcp/define.go and CreateIKCP: the record Kcp is IKCPCB, Segment is IKCPSEG
--   Kcp/Parse         kcp/parse.go; its children prove what the functions do
--   Kcp/Send          Send and SetNodelay of kcp/kcp.go
--   Kcp/Seg           kcp/seg.go
--   Kcp/Input         Input of kcp/kcp.go
--   Kcp/Due           Flush of kcp/kcp.go: which buffered segments are to be sent
--   Kcp/Flush         the rest of Flush
--   Kcp/Counts        the counters of the queues and buffers, through any calls
--   Kcp/Transfer      a segment as a datagram in Input; Answer: what an answer to all segments of a buffer
--                     does to their sender; Data: what a data segment does to a new connection
--   Net               net/clientConn/client_conn.go, each function by itself; Net/Frames: round trips
--   Net/Loops         the goroutines of a connection as steps of a state; Messages: what is still to
--                     come; Pending: what is still to be sent; Order: what is sent; Ends: how it ends
--   Net/Tcp           those goroutines on the stream of client_conn.go
--   Net/Websocket     net/clientConn/client_conn_http.go; Answers: its goroutines
--   Net/Server        net/net.go, net/tcp/tcp.go, net/http/http.go, net/register/register.go
--   App/Flags         app/flags/parse_flags.go; Registered: the flags of a structure; Described: what
--                     they are
--   App/Tasks         app/app.go; Ends: how run of an application ends
--   App/Services      the goroutines of app/app.go and app/registry.go; Reports: which errors are reported;
--                     Progress: that they are
--   App/Registry      app/registry.go and the small files beside it; Starts: without its flags;
--                     Again: that it does not start twice; Errors: what Run returns
--   Dfs               dfs/*.go; Buckets: TryMakeBucket; Objects: PutObject and GetObject
--   Mq                mq/rabbitmq/*.go; Consumers: what is registered, and what they are called with
--   Rpcx              rpcx/client and rpcx/service; BasePath: the path of clients
--   Zlog/Names        backupName, prefixAndExt and timeFromName of zlog/lumberjack.go
--   Zlog/Retention    oldLogFiles and millRunOnce: which files are kept, removed and compressed;
--                     Newest: the newest are kept; Age: how far back MaxAge goes
--   Zlog/Compress     compressLogFile and filename
--   Zlog/Caller       trimmedPath of zlog/caller_path.go
--   Zlog/Logger       Write, Close and Rotate, over the answers of a file system
--   Zlog/Mill         those calls and the goroutine of mill
--   Zlog/Setup        zlog/im_log.go
--   Examples, Runs    in each directory: theorems at concrete inputs, and tests
--
-- A method is a function into Run: it returns with its new state and a value, or it panics with the
-- state as it was then, or it is stuck, which is no behaviour of the code and means that a loop of the
-- model has run out of fuel. A uint32 is a number with `% 2 ^ 32` written out, an int32 an integer
-- that wrap32 brings into its range. A byte slice is a list of numbers. Where a loop deletes from the
-- slice that it ranges over, Slice keeps the array behind the slice, with the elements that a deletion
-- leaves behind the end; where a loop ranges over copies, the model drops them too.
--
-- Loops over a slice count the rounds that are left, so that they end by themselves. The loop of Input
-- takes fuel: each round uses up 24 bytes at least, and one round more than there are bytes is enough,
-- as input-IsError shows. The loop of ReadRecvMsg takes eight bytes at least in a round; again one
-- round more than there are bytes is enough, as read_recv_msg_total shows.
--
-- Not modelled: the callback Output is an application's; the model records its calls and takes it not
-- to change the connection. Recv, Update, Check, PeekSize, SetMtu, WndSize, WaitSnd, GetConv and Log
-- are empty in the source. Sharing between a queued segment and the caller's buffer is not modelled:
-- the bytes are those at the time of the call.
--
-- In Net/Loops the state of a connection says where each goroutine stands; a step is one action of one
-- goroutine, and the channels, which have no buffer, pass a message when both sides are there. TCP and
-- websocket connections are two instances of the interface Codec. Write of a connection is taken to fail if
-- the connection is closed or reset by the other side, and only then; a goroutine may wait in Read or Write
-- for ever. RequestCallBack is taken to return a message if it returns no error: at nil for both the process
-- panics, and no more steps follow. The recursion over what comes in is
-- on its size, which each message uses up.
--
-- What other packages do is a parameter everywhere: JSON, YAML, websockets, gin, the clients of the storage
-- services, amqp, rpcx and zap, and of the standard library the clock, the file system, the environment and
-- the parsing of numbers and times; sort.Sort is a parameter that is taken to sort. Effects act upon a state
-- `W` of any type. In App/Services and Zlog/Mill a state says where each goroutine stands, and a call under
-- the mutex is one step. What services and applications do to `W` while they run, until the event that ends
-- Run, is one parameter, and so is whether a close waits when consume looks for it. In Zlog an
-- error of oldLogFiles has no text, and the ownership of files is left out. Getters are
-- not modelled.
pub mod App
pub mod Base
pub mod Compare
pub mod Dfs
pub mod Kcp
pub mod Mq
pub mod Net
pub mod Rpcx
pub mod Zlog
