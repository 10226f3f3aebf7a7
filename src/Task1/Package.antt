-- ===== src/Task1/Package.antt =====
-- The packages of task1: a header of two 32-bit numbers in network order, and the bytes of a
-- message. The loops that read and write one stand in task1/src/DataStreamManager.cpp,
-- SocketServer.cpp and SocketClient.cpp alike.
pub mod Transfer
use lab.Prelude.{
  ℕ, zero, suc, ◌+◌, ◌-◌, ◌^◌, ◌%◌, ◌==◌, ltb, if◌then◌else◌, List, [], ◌∷◌, ◌++◌, Bytes, length,
  take, drop, min, le_bytes, le_value,
}
use lab.Prelude.Result.{Result, ok, raised, ◌>>=◌}
use lab.Task1.Link.{Link, Fault, disconnected, undefined, no_fuel}

abbrev pub maximum_package_buffer_size : ℕ
maximum_package_buffer_size = 1024

-- `sizeof(PackageHeader_St)`
abbrev pub header_size : ℕ
header_size = 8

abbrev pub protocol_protobuf : ℕ
protocol_protobuf = 1

abbrev pub msg_cont : ℕ
msg_cont = 2

pub record PackageHeader : Type 0 where
  pub package_size : ℕ
  pub package_flags : ℕ

module _ (k : Link) where
  open k use {Sock, recv, send, conv_htonl, conv_ntohl}

  -- `while (leftToRecv!=0)`: at most `limit` bytes are asked for in a round. More bytes than were
  -- asked for would be written behind the buffer.
  unfoldable pub recv_loop : ℕ → ℕ → ℕ → Sock → Result Fault (Bytes × Sock)
  recv_loop fuel limit zero s = ok ([], s)
  recv_loop zero limit (suc left) s = raised no_fuel
  recv_loop (suc fuel) limit (suc left) s = do
    (bytes, s') ← recv s (min (suc left) limit)
    if length bytes == 0
        then raised disconnected
        else if ltb (min (suc left) limit) (length bytes)
        then raised undefined
        else do
          (rest, s'') ← recv_loop fuel limit (suc left - length bytes) s'
          ok (bytes ++ rest, s'')

  -- The two numbers, in the order of the host.
  abbrev pub decode_header : Bytes → PackageHeader
  decode_header bytes = record {
    package_size = conv_ntohl (le_value (take 4 bytes));
    package_flags = conv_ntohl (le_value (drop 4 bytes));
  }

  -- The header and then the bytes that it announces.
  unfoldable pub recv_package : Sock → Result Fault ((PackageHeader × Bytes) × Sock)
  recv_package s = do
    (bytes, s') ← recv_loop header_size header_size header_size s
    let header = decode_header bytes
    (body, s'') ← recv_loop header.package_size maximum_package_buffer_size header.package_size s'
    ok ((header, body), s'')

  abbrev pub encode_header : PackageHeader → Bytes
  encode_header h =
      le_bytes 4 (conv_htonl h.package_size) ++ le_bytes 4 (conv_htonl h.package_flags)

  -- `while (sentBufferSizeLeft > 0)`
  unfoldable pub send_loop : ℕ → Bytes → Sock → Result Fault Sock
  send_loop fuel [] s = ok s
  send_loop zero (c ∷ bytes) s = raised no_fuel
  send_loop (suc fuel) (c ∷ bytes) s = do
    let size = min (length (c ∷ bytes)) maximum_package_buffer_size
    s' ← send s (take size (c ∷ bytes))
    send_loop fuel (drop size (c ∷ bytes)) s'

  -- The header and the bytes of a message, in one buffer.
  abbrev pub package_bytes : ℕ → Bytes → Bytes
  package_bytes flags body =
      encode_header (record { package_size = length body; package_flags = flags }) ++ body

  -- `sendBulk`, from the bytes of the message on.
  unfoldable pub send_package : ℕ → Bytes → Sock → Result Fault Sock
  send_package flags body s = send_loop (header_size + length body) (package_bytes flags body) s
