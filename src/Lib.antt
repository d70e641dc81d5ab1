-- ===== src/Lib.antt =====
-- Models and proofs for the programs that carry the values of EPICS process variables over a
-- one-way link. On the one side EpicsParserAndSubscriber subscribes to the variables and
-- PrioritySender sends their values in HTTP bodies, those that changed first; on the other side
-- DiodeReceiver takes the messages out of the bodies and puts the values. The sources are in
-- Source/Components/Interfaces: EpicsParserAndSubscriber, PrioritySender and DiodeReceiver, a .h
-- and a .cpp file each.
--
-- Base and its children hold the shared names: tests on numbers, lists as C arrays, uint32
-- arithmetic with its wrap-around written out, words as bytes and buffers of bytes. Marte is the
-- interface to the MARTe framework, whose sources are not in the repository: Compare, CompareN and
-- GetToken are operations with their documented behaviour, and a text is the list of its
-- characters. Marte.Plain is a concrete instance. Marte.Cpus has the CPU masks of threads.
-- Marte.Socket and Marte.Stream are the socket that the receiver reads and the stream that the
-- sender writes, by their operations and the bytes that pass. The conversion of types by
-- TypeConvert is a parameter too (Converter in Receiver/Store). Channels is what channel access
-- answers for a channel.
--
-- Receiver has the state of DiodeReceiver.cpp. Receiver/Directory models the two passes of
-- Initialise over the file with the variables and its insertion sort, and the binary search
-- GetLocalVariableIndex; Receiver/Message the parser ReadVarNameAndIndex; Receiver/Store the
-- functions GetLocalIndex and ReadVarValueAndSkip, the loop of ClientService over a payload, and
-- Synchronise; Receiver/Service the functions ReadNewChunk and ClientService around that loop;
-- Receiver/Server the function ServerCycle, by the sockets that a thread makes and deletes;
-- Receiver/Threads the function AddThread; Receiver/Setup the function Initialise, where what the
-- configuration and the file give, and what stands in a new array, are inputs; Receiver/Connect the
-- part of DiodeReceiverCycleLoop that asks for the types, Receiver/Start the layout of Start, and
-- Receiver/Put the rounds of DiodeReceiverCycleLoop in which the variables are put. Buffers are
-- lists of bytes, a pointer into a buffer is a position, and the state of the object is passed
-- along. What a lock protects is one step of the model.
--
-- Sender has the state of PrioritySender.cpp. Sender/Cycle models the rounds of
-- PrioritySenderCycleLoop: what the data source, the clock and the pool threads do between rounds
-- is an input of the round. Sender/Share models the first lines of SendVariables, by which the pool
-- threads share the window, Sender/Message the writes of one block of a variable, Sender/Send the
-- loop of SendVariables over the variables and their fragments, and Sender/Request its requests and
-- replies; Sender/Pool has the loop and the pool threads of ThreadCycle side by side, one step from
-- each lock or wait to the next, in any order; a thread is its place in the list of phases, which
-- stands for its number. Sender/Setup has the constructor, Initialise and SetDataSource. Subscriber
-- has the descriptor of a variable and the state of EpicsParserAndSubscriber.cpp; Subscriber/Parse
-- models the two passes of ParseAndSubscribe, Subscriber/Connect the types of cainfo,
-- Subscriber/Memory the ranges of its threads and the loops of FillMemorySizes by which a thread
-- lays out its variables, and Subscriber/Synchronise the function Synchronise that copies the
-- memories of the threads to the sender; Subscriber/Offsets is the end of CreateSubscriptions, by
-- which a variable is found there, Subscriber/Startup has the startup stages of all threads of
-- Execute, one step from each lock to the next, in any order; Subscriber/Threads has the CPU masks
-- of its Initialise, and Subscriber/Callbacks has the callbacks through which channel access brings
-- a value and its timestamp. RoundTrip joins the sides: the messages that SendVariables writes,
-- through the parser and the store of the receiver, also where a message comes in pieces or a
-- variable in several blocks, and up to a whole request.
--
-- Loops whose end is not plain are on fuel: the binary search has one unit of fuel more than there
-- are names, and the loop over a payload one more than there are bytes: a comparison makes the
-- window of the search smaller, and a message that is taken makes the payload shorter. The reads of
-- a chunk have one unit more than the chunk has bytes, and the loop of ClientService over a body
-- one more than the body: each read gives a byte at least, and each round but the last reads some.
-- The fragments of a variable have one unit more than the blocks that the request may still take.
-- The replies that a request reads and the requests of SendVariables are on fuel without a bound of
-- their own. The scans of the parser recur on the payload, and the loops of the sender on their
-- counters.
--
-- Not modelled: the functions of sockets, HTTP and channel access themselves, clocks and reports;
-- the sockets of ThreadCycle, and the stopping of threads by quit, Stop and the closing message;
-- the interleaving of the threads of DiodeReceiverCycleLoop; what a thread of
-- EpicsParserAndSubscriber does after an error, and its cleaning of the context; the configuration
-- that EpicsParserAndSubscriber reads, less the masks of its threads; the names and priorities that
-- AddThread gives; the scan of the file by GetVariable; the context of channel access. The fixed
-- sizes of the name buffers are not modelled. EpicsDiodeChanges holds changed copies of files of
-- EPICS base, and Startup and Test the programs that wire the components: neither is modelled.
pub mod Base
pub mod Channels
pub mod Marte
pub mod Receiver
pub mod RoundTrip
pub mod Sender
pub mod Subscriber
