-- ===== src/Lib.antt =====
-- goext, a Go utility library (package paths are from the repository's root). Its containers are
-- independent packages that hold state of their own; each is modelled by a module here.
--
-- Prelude: lists under native indices, Go's slice expressions and `copy` with their panics, integers,
--   positions on a ring, and `Outcome`: a call returns, panics, or runs out of modelled fuel.
--   `Returns P m` says that the call `m` returns a value that satisfies `P`, so it does neither of
--   the other two.
-- Ring.Fixed: container/ring/rbuf.go, FixedSizeRingBuf, method by method under its Go name in snake
--   case. A method returns its results and the ring that it leaves. `contents` is the queue of
--   readable bytes. The loop of Write has as fuel one more than the bytes to write; each round but
--   the last writes a byte. WriteTo and ReadFrom, which drive streams, are not modelled.
-- Ring.Bounded: container/ring/bounded_ring.go, Ring, which keeps one place free.
-- Deque: container/deque/deque.go, over any type of items with a `nil`; container/list is a list of
--   blocks. `Items` is the abstract deque, a list with an optional limit.
-- Selector: sort/selector/smooth_weighted.go, SW, smooth weighted round robin. Weights are integers,
--   of any sign; a choice is the index of the chosen item. Selector.Rounds counts the choices of many calls of Next, and
--   Selector.History runs any sequence of calls. All is not modelled: it keys a map by functions.
-- Bitmap: container/bitmap/bitmap.go, Bitmap. A byte is a number, whose bits are set, cleared and
--   read one at a time.
-- Consistent: hash/consistent/consistent.go, ConsistentHash: the ring of hashes that Add and Remove
--   change and Get and GetHash search. Maps are lists of keys and values. The hash function is any
--   function; sort.Sort is an insertion sort and sort.Search Go's halving, with the length as fuel,
--   of which each round takes one off the range. UpdateLoad, Inc and Done
--   change loads, which are unbounded integers. Consistent.Several is GetTwo, GetN, Set and Members,
--   and Consistent.Names, Consistent.Hosts and Consistent.Setting are about the hosts that Set leaves;
--   the loops around the ring have as fuel one more than the number of hashes, which is enough where
--   what they look for is there, and Consistent.Around is about them. GetLeast and MaxLoad compute in
--   float64 and are not modelled.
-- RedPacket: math/rand/red_packet.go, CalRedPacket, with rand.Intn as a parameter.
-- XorList: container/xorlist/xorlist.go, XorList. A Store is the memory: the PN and the Value at
--   each address, and `IsList s l xs` says that the store holds the list of the elements `xs` between
--   the list's two sentinels. The loops of prev and next have as fuel one more than the length; each
--   round steps over one element. What a composite literal allocates is a parameter.
-- Timer: time/timer.go and time/sleep.go, TimerWheel. A slot is the list that its XorList holds.
--   Timer.Hands is about the hands that timerUpdate turns, Timer.Cascade about the levels it empties,
--   Timer.Update and Timer.Tick about a tick. timerCascade has as fuel one more than the length of
--   the slot; each round takes a node off it. Timer.Loop is the goroutine: a World holds the channel,
--   the ticker and the loop's state, and a Step is a round of the loop or a call of another goroutine.
--   Stop is one step, so that no call meets a channel that is closed and not yet nil. A deadline and
--   a period are an int64 whose sums and differences wrap around (Prelude.Int64); where the theorems
--   about them need that they do not, they ask for periods and times below 2^62 nanoseconds, which
--   are 146 years. A function that a timer runs is a pure one.
-- Wheel: time/wheel.go, Wheel. A channel is a number; a round of the goroutine and a call of After
--   are one step each, as under the lock. A timeout is an integer, as Go's may be negative. The field
--   now and Stop are not modelled.
-- Cipher: crypto/xor/xor.go, Xor. A text is its runes, and strconv's hexadecimal digits are written
--   out; how far the capacity of Decrypt's slice of runes exceeds their number is a parameter; the encoder and the decoder of encoding/base64 are parameters. The structural loops need no
--   fuel.
--
-- Sizes and positions are ℕ where the code keeps them nonnegative and ℤ where a caller may pass a
-- negative one; no sum here comes near the limit of Go's int for buffers that fit in memory. The
-- packages over sockets, files, processes and services are not modelled: they are input and output.
pub mod Prelude
pub mod Ring
pub mod Deque
pub mod Selector
pub mod Bitmap
pub mod Consistent
pub mod RedPacket
pub mod XorList
pub mod Timer
pub mod Wheel
pub mod Cipher
