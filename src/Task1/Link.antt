-- ===== src/Task1/Link.antt =====
-- What the code of task1 uses of a TCP socket (task1/inc/PracticalSocket.h, a library's copy), and
-- how its calls end.
use lab.Prelude.{ℕ, ◌≤◌, ◌<◌, ◌^◌, ◌≡◌, ◌≢◌, [], ◌++◌, Bytes, length}
use lab.Prelude.Result.{Result, ok}

pub data Fault : Type 0 where
  -- a `SocketException`
  socket_exception : Fault
  -- `recv` gave 0: "recv failed or connection disconnected", and the function returns
  disconnected : Fault
  -- a message that is not one of the protocol buffers, or not the one that is expected
  parse_failure : Fault
  bad_request : Fault
  -- the query failed
  query_failure : Fault
  undefined : Fault
  -- the fuel of a loop ran out
  no_fuel : Fault

-- `recv s n` gives the bytes that came, none where the peer has closed, and `send s bytes` takes
-- them all or throws.
pub record Link : Type 1 where
  pub Sock : Type 0
  pub recv : Sock → ℕ → Result Fault (Bytes × Sock)
  pub send : Sock → Bytes → Result Fault Sock
  pub conv_htonl : ℕ → ℕ
  pub conv_ntohl : ℕ → ℕ

-- A link over which nothing fails: the peer has sent the bytes `incoming` and closed its side, they
-- come in pieces of any size, and what is sent is appended to `outgoing`.
pub record IsReliable (k : Link) : Type 0 where
  pub incoming : k.Sock → Bytes
  pub outgoing : k.Sock → Bytes
  pub recv_some :
      (s : k.Sock) (n : ℕ)
      → 1 ≤ n
      → incoming s ≢ []
      → (bytes : Bytes) × (s' : k.Sock) × (k.recv s n ≡ ok (bytes, s'))
        × (1 ≤ length bytes)
        × (length bytes ≤ n)
        × (bytes ++ incoming s' ≡ incoming s)
        × (outgoing s' ≡ outgoing s)
  pub recv_closed : (s : k.Sock) (n : ℕ) → incoming s ≡ [] → k.recv s n ≡ ok ([], s)
  pub send_all :
      (s : k.Sock) (bytes : Bytes)
      → (s' : k.Sock) × (k.send s bytes ≡ ok s')
        × (outgoing s' ≡ outgoing s ++ bytes)
        × (incoming s' ≡ incoming s)
  pub htonl-lt : (x : ℕ) → x < 2 ^ 32 → k.conv_htonl x < 2 ^ 32
  pub ntohl-htonl : (x : ℕ) → x < 2 ^ 32 → k.conv_ntohl (k.conv_htonl x) ≡ x
