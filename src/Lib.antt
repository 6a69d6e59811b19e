-- ===== src/Lib.antt =====
-- Private billing: bills for peer-to-peer energy trading, computed on encrypted data.
--
-- Each client (core server) hides its data of a billing cycle: it encrypts its side of each time slot
-- under its own keys and masks what must be summed over all clients. The edge server records the hidden
-- data, adds up the masked vectors, in which the masks of all clients cancel, computes each client's bill
-- under encryption and sends it back, and the client decrypts it. This library models the part of the
-- program that does this, under src/private_billing:
--
--   Vector            core/utils.py: class vector, max_vector and the flags
--   Cycle             core/cycle.py and core/bill.py: CycleContext, SharedCycleData, Bill
--   Masking           core/masking.py: SharedMaskGenerator; Masking.Convertor: Int64ToFloatConvertor
--   Hiding            core/hiding.py: HidingContext, PublicHidingContext; Hiding.Parameters: __init__
--                     and what it generates
--   Serialization     core/serialize.py: __getstate__ and __setstate__ on the attributes of an object
--   HiddenBill        core/hidden_bill.py: HiddenBill.reveal
--   HiddenData        core/hidden_data.py: HiddenData; compute_hidden_bill is in HiddenData.Compute
--   Data              core/data.py: Data and Data.hide
--   Billing           core/billing.py: SharedBilling
--   Community         no code of its own: all clients of a cycle together
--   Signing           server/signing.py: Signer and TransferablePublicKey
--   Network           network.py: NodeInfo and the registry of nodes; Network.Dispatch: _handle;
--                     Network.Sending: send; Network.Serving: server/request_reply.py, start and recv
--   EdgeServer        edge_server.py: the handlers, as functions on the state of the server, with the
--                     messages that it has sent in a list; EdgeServer.Process: network.py, _handle and
--                     execute with these handlers
--   Messages          messages.py: the messages by their classes
--   CoreServer        core_server.py: its handlers likewise; CoreServer.Process: network.py, _handle and
--                     execute with these handlers
--   X.Connect         handle_connect: in Network over the methods that a kind of server overrides, a
--                     record Discovery; in EdgeServer and CoreServer with their own methods
--   Exchange          no code of its own: several core servers and the messages between them, as a step
--                     relation over the handlers of CoreServer
--   Prelude, Python, Number   lists and tests; exceptions, dicts and state; numbers
--   Tests             concrete runs, over a scheme that encrypts nothing
--
-- A method is a function with the name of the method; a method that changes its object returns the new
-- one. What may raise returns a Result; what also changes the keys that OpenFHE has loaded is an Action on
-- them. A dict is a list of entries in the order of insertion, a set is the list of its items. A loop is
-- structural recursion on what it goes through; only the logarithm in Hiding.Parameters runs on fuel, one
-- unit for each halving, and its bounds are proved for the fuel that it is given.
--
-- Python's int and float are one type N with the operations of Number, since the program mixes them. A
-- theorem names the laws that it uses: IsFinite holds what is true of ints and of finite floats, without
-- regrouping; IsExact lets sums be regrouped, which floats do up to rounding. Number.Int meets both.
-- IsModular has the range of / and fmod on numbers that are not negative. OpenFHE is the record Fhe with
-- the laws IsHomomorphic: the operations act slot by slot up to a multiplicative depth, decryption is
-- right in the five digits to which the program rounds, and a product needs the relinearization key.
-- PCG64, the random seeds and SHA-256 are arguments without laws. What
-- OpenFHE generates is the record Generation with the laws IsGeneration; what it writes to files and
-- reads from them is the record Files with the laws IsFaithful. An exchange of seeds in
-- Masking.Exchange is one step, in which the peer receives at once what the owner gives; in Exchange a
-- seed is sent and received in two steps.
--
-- A vector that is longer than the batch size of a context cannot be packed, which raises; the theorems
-- about hiding and billing ask for room. OpenFHE is not made to fail otherwise, but for a product without
-- the relinearization key. The cost split is in HiddenData.Split; where it differs from the document
-- docs/universal_cost_split.md is said there. Python goes through a set in an order of its own: the
-- entries of the network state of a connect message are listed in the order in which the receiver goes
-- through their addresses, and the theorems hold for any.
--
-- Not modelled: the sockets and threads under server/ and network.py (a handler that is given to the pool
-- runs before the next message arrives), pickle, and logging. What
-- cryptography does is the record Crypto with the laws IsCrypto: keys are loaded from their bytes and a
-- signature is valid under the key of its signer; nothing is assumed of signatures that nobody made.
pub mod Prelude
pub mod Python
pub mod Number
pub mod Vector
pub mod Cycle
pub mod Masking
pub mod Hiding
pub mod Serialization
pub mod HiddenBill
pub mod HiddenData
pub mod Data
pub mod Billing
pub mod Community
pub mod Signing
pub mod Network
pub mod Messages
pub mod EdgeServer
pub mod CoreServer
pub mod Exchange
pub mod Tests
