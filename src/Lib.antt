-- ===== src/Lib.antt =====
-- COSICoin, a small cryptocurrency with one-time signatures and Bracha's reliable broadcast.
--
-- Wallets sign transactions with one-time keys; a leading validator gathers them into a block and
-- proposes it; the validators agree on the block by echoing it to each other, and each message
-- carries the block under a one-time signature of its sender.
--
-- Base is what all parts share: tests on numbers, lists, dictionaries, results, texts as lists of
-- bytes, and the machine's integers with their wrap-around written out.
--
-- Host is the code that the program calls and that is not its own: the SHA-256 library
-- (lib/signature/sha256.cc), the JSON library (include/json/json.hpp) and the random source. They
-- are arguments; no law of them is assumed but where a theorem names it. Two more say what memory holds
-- where the program reads it though C++ does not say what is there: the key of an erased entry, in a
-- delivery, and the type of a message that came with an unknown number. Json is a JSON value.
--
-- Signature is include/signature/hash.h and lib/signature/hash.cc. Bitset: strings as bitsets.
-- Keys: `SigKey`, `KeyGen`, `SigKey_to_string`; a read position in the random stream stands for the
-- state of the source. Sign: `Sign` and `Verify`, whose int result is the type Verdict. Lamport and
-- Roundtrip hold the proofs.
--
-- Blockchain is include/blockchain and lib/blockchain. Coins: inputs, outputs, unspent outputs.
-- Transaction: `checkSpendingConditions`, whose totals are ints and so stand modulo 2^32; the digest;
-- `operator==`. Header: `calculateMerkleRoot`, on fuel: the number of transactions is enough, since
-- each pass makes the list shorter. Block: the operations of a block, which throws while it is not
-- finalized or once it is; InputSet is the `std::set` of inputs in `verify`. Message: the protocol's
-- messages. Spending, Digest, Equality, Merkle, MerkleRoot, Verify and Lifecycle hold the proofs.
--
-- Bracha is include/bracha/node.h and lib/bracha/node.cc. Node: the state. Receive:
-- `updateRecvMessages` and `checkBlockSig`. Broadcast: `signBlock`, `broadcastRound`, the loop of
-- `RunProtocol` (on the batches of messages that arrive) and `Propose`. The messages that a node
-- hands to its client are the list `sent` of its state. A delivery appends what the read of the erased
-- hash yields, or throws what it throws. Hash maps are association lists, so one of the orders in which
-- the source may walk them is taken. Start: the constructor. Fault: the faulty node, with its proofs.
-- Trust, Entries, Sent, Keys, Chain, Frame, Quorum, Quiet, Live, Rounds and Run hold the others.
--
-- Validator is include/cryptowallet/validator.h and lib/cryptowallet/validator.cc. State: the state
-- with its node, and `InitializeCoins`. Pool: `OnRecvTx`, `CreateBlk`, `Propose`. Settle: `OnAgreeBlk`
-- and the task of `DBProcess`. Listen: the task of `Listen`. Events: the event handler, over any
-- state of its tasks. Admission, Creation, Acceptance, Settlement, Spent, Proposal and Reruns hold the
-- proofs. A call that is undefined in C++, such as an erase past the end, is an error; that `OnTxReply`
-- returns nothing is not.
--
-- Wallet is include/cryptowallet/wallet.h, lib/cryptowallet/wallet.cc and lib/json/jsonparser.cc.
-- Info: the description of a transaction. Create: `CreateTx` and `SendTx`. Accepted holds the proofs.
--
-- Comms is include/comms and lib/comms. Server: the calls in the completion queue and the queues that
-- they fill. Client: a queue and a thread for each server, whose turns are steps. Intake and Delivery
-- hold the proofs. Config is lib/config/settings.cc, with the proofs in Roundtrip. Storage is
-- lib/database/database.cc, its file the JSON value that is written to it; Links, Reload and Unsigned
-- hold the proofs.
--
-- Texts is how the parts write themselves as JSON and read themselves back: hash.cc (Keys), input.cc,
-- output.cc and transaction.cc (Transactions), header.cc and block.cc (Blocks). Plain says what is
-- relied on of the JSON library: values of ASCII strings, numbers of 64 bits and objects with rising
-- keys are printed in ASCII and parse back. The modules on the way back, and Missing, hold the proofs.
--
-- Wire is the way between two processes. Proto: the messages of protos/chat.proto as records. Convert:
-- the conversions of include/blockchain and lib/blockchain to them and from them. Calls: the calls of
-- `ChatClient` and the requests of the server, which are decoded while the call is served. Served:
-- `HandleRpcs` on the calls that the completion queue returns, and the batches that a node takes in
-- `RunTaskInWait`. Sent, Generated, Whole, Running and Votes hold the proofs: Running puts the server
-- and the node together, Votes follows a message from one node to another, and Wallet/Paid a payment
-- from the wallet through the wire and the server's queue to the validator.
--
-- Hardware is lib/interf, a hash on a board: Padding (wrapper.cc), Words (wrapper.c) and Interface
-- (interface.c, and the test program verilog_code/main.c). The board is a parameter that answers to
-- accesses of its registers; the loop that waits for it is on fuel, and an answer after fewer polls than
-- the fuel ends it. Padded, Loaded and Answers hold the proofs.
--
-- Exceptions and failed assertions are errors of Base/Result; memory that runs out is left out.
-- Not modelled: locks, waits and the end of threads; the encoding of protocol buffers into bytes and
-- their transport, which are gRPC's; the opening of files; the mapping of the board's memory; output to
-- the console; the demonstrations.
pub mod Base
pub mod Json
pub mod Host
pub mod Signature
pub mod Blockchain
pub mod Bracha
pub mod Storage
pub mod Comms
pub mod Config
pub mod Validator
pub mod Wallet
pub mod Texts
pub mod Wire
pub mod Hardware
mod Tests
