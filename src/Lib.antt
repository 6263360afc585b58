-- ===== src/Lib.antt =====
-- Skylink: a protocol library for radio links with automatic repeat requests (ARQ), time division
-- and authentication, written in C. Paths are from the repository's root.
--
-- Parts and files. Payloads of any length are stored in the element buffer (src/element_buffer.c),
-- as chains of elements of one size; an index stands for a stored payload. Two rings order such
-- indices by an 8-bit sequence (src/sequence_ring.c): the send ring keeps what is sent until it is
-- acknowledged, and the receive ring takes payloads in any order within a horizon and hands them
-- out in order. A virtual channel (src/reliable_vc.c) has one of each and the buffer that they
-- share, and runs the ARQ state machine on the extension headers of frames (src/frame.c). The
-- medium access control (src/mac.c) says when the node may send. An instance has four virtual
-- channels. It transmits frames of the channels in turn (src/skylink_tx.c), each with a trailer of
-- the authentication (src/hmac.c), with error correction (src/fec.c) and a coded length, and takes
-- received frames the same way back (src/skylink_rx.c).
--   Base           shared names, Boolean tests, lists, signed integers, result codes
--   Utilities      src/utilities.c: positive_modulo, wrap_time_ticks, the byte order
--   ElementBuffer  src/element_buffer.c: sky_element_buffer_store as `store`, and so on;
--                  the functions that check a buffer are in ElementBuffer.SelfCheck
--   SequenceRing   src/sequence_ring.c: rcvRing_ and sky_rcv_ring_ functions in RcvRing, sendRing_ and
--                  sky_send_ring_ functions in SendRing, each by its name without the prefix
--   Mac            src/mac.c: mac_ and sky_mac_ functions
--   Frame          src/frame.c: the writers and the parser of extension headers; in Frame.Radio the
--                  memory of a frame and its static header
--   ReliableVc     src/reliable_vc.c: sky_vc_ functions; those on frames are in ReliableVc.Frames
--   External       the functions of src/ext that the protocol calls, as a parameter
--   Diag           src/diag.c: the counters
--   Hmac           src/hmac.c: sky_hmac_ functions
--   Fec            src/fec.c: sky_fec_encode and sky_fec_decode
--   Crc            src/crc.c: the checksum, whose calls from the paths are compiled out
--   Node           struct sky_all and sky_create of src/utilities.c, and what spans the parts
--   Rx             src/skylink_rx.c: sky_rx as `rx`, sky_rx_with_fec, sky_rx_with_golay
--   Tx             src/skylink_tx.c: sky_tx as `tx`, sky_tx_with_fec, sky_tx_with_golay
--   Tests          the properties at concrete inputs
--
-- State. A C struct is a record, a pointer to it is the record passed in and returned, and memory
-- that is indexed without a check is a total function of the index. An operation returns its
-- result, then what it changes. A result is `ok` with the value or `err` with the SKY_RET code.
-- `Option` stands for NULL or a failed SKY_ASSERT. Where C asks the clock for the time, the time is
-- an argument.
--
-- A function that continues another one is named for what it follows: rx_checked is the end of
-- sky_rx behind the check of the authentication. The bytes of a frame that is written are those in
-- front of its static header, the header and what is written behind; its memory is made of these.
-- The code copies the static header as a struct: it has the layout of GNU compilers on a
-- little-endian host.
-- An index behind the memory of a frame reads zero and writes nothing, where C's access is undefined.
--
-- External functions. BLAKE3, the Reed-Solomon and the Golay coder are fields of the record
-- External, any functions. A statement that relies on them says on what: a hash is as long as it is
-- asked for, the decoder corrects up to 16 damaged bytes, a coded word is decoded.
--
-- Integers. Sequences are numbers that wrap at 256, ticks are signed integers. Sums of ticks do not
-- overflow as long as configured lengths are below 2 ^ 25: a cycle is four of them, and the largest
-- value computed is twelve times a cycle. positive_modulo is that of integers, and
-- positive_modulo_int32 computes as the code does, in 32 bits. The length of a stored payload is a
-- 16-bit word, and its elements are at most the 42 that the code has room for on its stack: where C
-- would write behind that array, `store` returns the code undefined_behaviour, which C has not.
--
-- Fuel. The loops of positive_modulo run at most 13 times, since they are entered only for values
-- of at most 12 times the modulus; those over elements or slots run on their number; cleaning the
-- tail of the send ring runs on 256, the number of sequences; a walk of the self-check along a chain
-- runs on the number of elements; the parser runs on the length of the extensions, since every round
-- moves its cursor; the loops over channels and bytes run on their number.
--
-- Not modelled: the destroy functions, which free memory; the printing of diagnostics; code
-- that is compiled out, as the encryption in src/hmac.c and the calls of the checksum; and the
-- copies of third-party libraries under src/ext.
pub mod Base
pub mod Utilities
pub mod ElementBuffer
pub mod SequenceRing
pub mod Mac
pub mod Frame
pub mod ReliableVc
pub mod External
pub mod Diag
pub mod Hmac
pub mod Fec
pub mod Crc
pub mod Node
pub mod Rx
pub mod Tx
pub mod Tests
