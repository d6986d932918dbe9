-- ===== src/Lib.antt =====
-- Verification of kapacitor, a stream processor: tasks are graphs of nodes through which points
-- flow, alert nodes turn points into events of topics, and services keep their objects in a
-- key-value store.
--
-- Parts, and the files that model them:
-- * Windows (window.go), in Window. Window/ByCount.antt is windowByCount: `advance` is the
--   write of Point and the moves of its indices, `point`, `batch` and `points` are the methods.
--   Window/TimeBuffer.antt is windowTimeBuffer: `insert` is `grow` (the reallocation) before
--   `place` (the write), `purge` and `points` are the methods. Window/ByTime.antt is
--   windowByTime over that buffer: `point`, `barrier`, `emit` (the purge and batch that both
--   share), `new_window_by_time`. Window/Slots.antt has the copies of slots that both kinds of
--   windows make.
-- * The store (services/storage), in Storage. Storage/Mem.antt is MemStore with its
--   transactions and DoUpdate and DoView; Storage/Listing.antt is DoListFunc;
--   Storage/Indexed.antt is IndexedStore, over the map of one transaction; Storage/Kinds.antt
--   has the errors.
-- * Alerts, in Alert. Alert/Level.antt has the levels (alert/types.go) and determineLevel with
--   findFirstMatchLevel (alert.go); Alert/State.antt is alertState (alert.go): the ring of
--   levels, flapping, expiry, Point, restoring; Alert/Topic.antt is a topic of alert/topics.go:
--   the states of events, their order, the handlers behind their buffers; Alert/State/Batch.antt
--   is BufferedBatch; Alert/Topics.antt is the map of topics.
--   Alert/Inhibit.antt is the InhibitorLookup (alert/inhibit.go).
-- * Combine (combine.go): Combine.antt is combination with Do and Count, Combine/Buffer.antt is
--   combineBuffer.
-- * Union (union.go), in Union.antt: the messages of each parent and its low mark as a list of
--   sources, `see` and `emit_sources` for the two loops of emitReady.
-- * Join (join.go): Join.antt is joinGroup with its sets by time, joinset, and the messages of one
--   group of the node; Join/Point.antt is JoinIntoPoint, and emitJoinedSet for streams;
--   Join/InOrder.antt and Join/RunsInOrder.antt are about sources that send in the order of time.
-- * Nodes that look at a point at a time, in Nodes. Nodes/Autoscale.antt is handlePoint of the
--   autoscale node (autoscale.go), Nodes/StateTracking.antt stateDuration and stateCount
--   (state_tracking.go).
-- * Expressions (tick/stateful), in Tick: Tick/Values.antt has the values and types of
--   tick/ast/types.go, Tick/Functions.antt the table of evaluation_funcs.go, Tick/Eval.antt the
--   nodes with their types (node_evaluator.go), Tick/Binary.antt `eval` of eval_binary_node.go,
--   Tick/Expression.antt the methods EvalBool, EvalInt and so on of the nodes, as one function of
--   the type that is requested, and Expression.Eval (expr.go). What a binary node keeps between
--   points is a state beside the expression.
-- * The lexer of TICKscript (tick/ast/lex.go), in Lex: Lex/Scan.antt has the lexer and its steps
--   over the bytes of the input, Lex/Words.antt operators and keywords, Lex/States.antt and
--   Lex/Quoted.antt the state functions, Lex/Run.antt `run`.
-- * Authorization (auth/auth.go), in Auth.antt: users, masks of privileges, AuthorizeAction.
-- An alert node reads the level of a point, keeps it in the state of the group, and hands an event
-- to its topics, which store the state of the event and pass the event to their handlers. Prelude
-- has what the parts share: Boolean tests, lists over the native numbers, maps as association
-- lists, integers. Examples has the theorems at concrete inputs.
--
-- Conventions: a method on a pointer takes the old state and returns the new one; a panic, which is
-- an index out of range or an explicit panic, is `none`; only a read of the history of an
-- alertState out of range gives OK here, where the code panics. Times and durations are natural
-- numbers of nanoseconds; sums of them, counters and capacities are taken not to overflow. A slice
-- with room to grow is the list of its elements and its capacity. Loops over a slice are recursions
-- on the list, loops over an index are recursions on the number of rounds left, which the caller
-- computes from the loop's bounds. There are eight fuels: that of the walk up the path of a
-- resource (`walk` of Auth.antt), enough if it is the number of resources on the way to the root,
-- that of the loop of Do (`do_rest` of Combine.antt), enough if it is the number of choices, that
-- of emitReady (`emit_ready` of Union.antt), for which one more than the messages that wait is
-- enough, those of emit and emitAll (`emit` and `emit_all` of Join.antt), for which two more than
-- the times with sets and one more than the messages of the group are enough where forwarding does
-- not fail, those of the states of the lexer and of its loops (`run` and the state functions of
-- Lex), for which three times the bytes and two more, and one more than the bytes, are enough where
-- it does not go back too far, and that of the retries of a binary node (`eval_binary` of
-- Tick/Binary.antt), for which three are enough on references and literals. An int64 of
-- Combine.antt and an int of Storage/Listing.antt are bit patterns, and their arithmetic wraps
-- around. Inhibitors stand behind addresses, since a node sets them while they are registered.
--
-- Parameters: the points of windows and their times; the stored objects with their methods, and
-- path.Join and path.Match, of the indexed store; how many texts a slice can have room for, above
-- which make panics; path.Clean, path.IsAbs and path.Dir; the expressions and templates of an alert
-- node, and the floating-point numbers of the flapping detection; the sort.Sort of topics; the
-- service that holds replicas and the expression of an autoscale node; the times of the points of
-- combine, and which of them an expression matches; the times of the points of join, rounded to its
-- tolerance, and what joins and forwards a set, which may fail; the decoding of runes and their
-- classes; the expression, the fields and the quotient of stateDuration; the floating-point
-- numbers, the regular expressions and the order of strings of expressions.
--
-- Not modelled: locks other than the lock of the memory store, goroutines and the channels between
-- them, logs and counters of statistics, the data of points, the matching of points by dimensions
-- and the joining of batches of the join node, the barriers of barrier.go, the other nodes (sample
-- and more), the merging of combined points, the parser and the functions of TICKscript, the HTTP
-- interface, clients and commands, the clients of outside services, and the vendored libraries.
pub mod Prelude
pub mod Window
pub mod Storage
pub mod Alert
pub mod Auth
pub mod Combine
pub mod Union
pub mod Join
pub mod Nodes
pub mod Tick
pub mod Lex
pub mod Examples
