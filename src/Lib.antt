-- ===== src/Lib.antt =====
-- A model of the Go library aqi, a framework for websocket services: the code that routes requests,
-- keeps sessions and topics, and serves tools, with the theorems that make it correct.
--
-- The program. A websocket client (ws/client.go) is read into a queue of requests. `Request` asks
-- a rate limiter and hands each request to `Dispatcher` (ws/dispatcher.go), which looks the action
-- up among the routes (ws/router.go, ws/manager.go) and runs the chain of handlers (ws/context.go).
-- The hub (ws/hubc.go) receives connects and disconnects, logs users in (ws/user.go), watches them
-- and publishes events; topics (ws/pubsub.go, ws/pubsub_topic.go) pass messages on to the clients
-- of their users. The package mcp/ serves tools over HTTP beside it. utils/ holds helpers.
--
-- Files, and what they model:
--   Prelude           shared names; tests on numbers; lists, integers, Go maps, texts and sorting
--   Utils.Slices      `UniqueSlice`, `SliceFindIndex`, `IdCompare` of utils/
--   Utils.Times       utils/t.go
--   Utils.RealIp      utils/ip/real_ip.go
--   Utils.Uids        `GenSid` of utils/uidgen/simple_uid.go, its atomic steps interleaved
--   Utils.Trie        utils/tree/trie_tree.go: `Insert`, `Find`, `FindAll`, `Del`
--   Ws.RecentLogs     the ring of log lines in ws/client.go
--   Ws.Types          the records of ws/; pointers are numbers into two heaps of the hub
--   Ws.Client         `Log`, `SendMsg`, `Close` and the keys of ws/client.go, ws/client_keyval.go
--   Ws.PubSub         ws/pubsub.go and ws/pubsub_topic.go, and the topic methods of ws/user.go
--   Ws.Session        ws/hubc.go, and the client list of ws/user.go
--   Ws.Chain          `Next` and `Abort` of ws/context.go
--   Ws.Router         ws/router.go and ws/manager.go, with Go's `append` on shared arrays
--   Ws.Dispatcher     ws/dispatcher.go, and the body of the loop of `Request`
--   Ws.Languages, Ws.Sending
--                     ws/context_lang.go, and the Send methods of ws/context_send.go
--   Ws.Values, Ws.Stack
--                     ws/context_value.go, ws/data_h.go and ws/client_stack.go
--   Ws.Errors         `NewError` of ws/data_error.go with the ranges of ws/data_appid.go
--   Ws.Params         ws/data_paginate.go and ws/context_params.go, and parts of mcp/context.go
--   Mcp.Schema        mcp/schema.go and `validateArguments` of mcp/server.go
--   Mcp.Context       the response in mcp/context.go, and `callTool` of mcp/server.go
--   Mcp.Server        options, registration and `serveHTTP` of mcp/server.go and mcp/tool.go
--   Docgen.Doc        the records of internal/docgen/types.go
--   Docgen.Syntax     the trees of go/ast and `ast.Inspect`, as far as the parser looks at them
--   Docgen.Tags       struct tags and comments in internal/docgen/parser.go
--   Docgen.Middlewares, Docgen.Returns, Docgen.Fields, Docgen.Params, Docgen.Packages, Docgen.Routers
--                     the walks of internal/docgen/parser.go over router files and handlers
--   Docgen.Config     the groups and documents of its configuration
--   Docgen.Groups, Docgen.Json, Docgen.Markdown, Docgen.Changelog
--                     internal/docgen/generator.go
--   Docgen.Command    `runDocgen` of internal/cli/cli_docgen.go
--   The modules below each of these hold its theorems, and its Examples run it.
--
-- Conventions. An operation of the hub is a function on `Hub`; a `Now` is what the clock shows. A
-- panic is `none` or a constructor of its own. A Go map is an association list, whose order stands
-- for the order of a loop over it. A channel is the list of what was sent, a sender that waits
-- counted in; goroutines appear as sequences of turns (Ws.Session.Runs). The handlers of
-- Ws.Chain run on fuel, since a handler may call `Next` again; `cost` is enough for the handlers
-- that Ws.Chain.Kinds describes. The arrays of Ws.Router grow to a capacity that a parameter gives,
-- as Go leaves it open. An `int` is 64 bits wide in Ws.Params, the chain's index is 8 bits wide,
-- and the numbers of Ws.Errors stay far below either bound. Decoding of JSON, `cast.ToString`, the
-- rate limiter and what a tool's handler answers are inputs or parameters. In Docgen a text is the
-- list of its code points, a parsed file is an input, and the file system is a parameter that gives
-- the entries of a directory; the order of `sort.Slice` on equal names is the given one. The fuel of
-- `digits` is the number and one more, which Docgen.Markdown.Numbers shows is enough; that of
-- `search` is one more than the number of magnitudes, and Utils.Times.Search shows it is enough.
--
-- Not modelled: the network loops `Reader` and `Write`, the upgrade of connections, the
-- parsing of Go and YAML and the files that internal/docgen reads and writes, the other
-- commands, configuration, logging to files, stores, telemetry, the worker queue and the
-- remaining helpers of utils/.

mod Prelude
pub mod Utils
pub mod Ws
pub mod Mcp
pub mod Docgen
