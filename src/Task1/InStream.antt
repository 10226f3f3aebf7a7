-- ===== src/Task1/InStream.antt =====
-- `BulkDataInStreamMngr` of task1/src/DataStreamManager.cpp: packages are read and consumed until
-- one has no `MSG_CONT`.
pub mod Delivery
use Prim.Native.Nat.{bit_and}
use lab.Prelude.{ℕ, zero, suc, ◌==◌, if◌then◌else◌, List, [], ◌∷◌, Option, none, some, Bytes}
use lab.Prelude.Result.{Result, ok, raised}
use lab.Task1.Link.{Link, Fault, parse_failure, no_fuel}
use lab.Task1.Package.{PackageHeader, recv_package, msg_cont}
use lab.Task1.Respond.{Respond, Codec}

module _ {Message : Type 0} (k : Link) (c : Codec Message) where
  open k use {Sock}

  -- A message was read: it is consumed, and the loop goes on while it has `MSG_CONT`.
  abbrev pub consumed :
      (Sock → List Message × Result Fault Sock)
      → PackageHeader
      → Option Message
      → Sock
      → List Message × Result Fault Sock
  consumed continue header none s = ([], raised parse_failure)
  consumed continue header (some m) s =
      let (ms, end) = continue s in
      if bit_and header.package_flags msg_cont == 0 then (m ∷ [], ok s) else (m ∷ ms, end)

  -- A package was read, and is parsed.
  abbrev pub received :
      (Sock → List Message × Result Fault Sock)
      → Result Fault ((PackageHeader × Bytes) × Sock)
      → List Message × Result Fault Sock
  received continue (raised e) = ([], raised e)
  received continue (ok ((header, body), s)) = consumed continue header (c.parse body) s

  -- `handleProtoBuffRecv`, with `fuel` rounds of the loop: the messages that were consumed, in
  -- order, and how the call ended.
  unfoldable pub handle_proto_buff_recv : ℕ → Sock → List Message × Result Fault Sock
  handle_proto_buff_recv zero s = ([], raised no_fuel)
  handle_proto_buff_recv (suc fuel) s = received (handle_proto_buff_recv fuel) (recv_package k s)
