-- ===== src/Task1/Stream.antt =====
-- A stream of messages as the bytes of its packages: all but the last have `MSG_CONT`.
use lab.Prelude.{ℕ, List, [], ◌∷◌, ◌++◌, Bytes}
use lab.Task1.Link.{Link}
use lab.Task1.Package.{package_bytes, protocol_protobuf}
use lab.Task1.Respond.{Codec}

-- `MSG_CONT | PROTOCOL_PROTOBUF`
abbrev pub more_flags : ℕ
more_flags = 3

module _ {Message : Type 0} (k : Link) (c : Codec Message) where
  abbrev pub stream_bytes : List Message → Message → Bytes
  stream_bytes [] last = package_bytes k protocol_protobuf (c.serialize last)
  stream_bytes (m ∷ ms) last = package_bytes k more_flags (c.serialize m) ++ stream_bytes ms last
