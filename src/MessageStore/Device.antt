-- ===== src/MessageStore/Device.antt =====
-- MessageStore/framework/inc: the interface `IODevice`, with the two classes that stand behind it.
pub mod StdStream
pub mod Lines
pub mod Supply
use lab.Prelude.{ℕ}
use lab.MessageStore.Outcome.{Outcome, ok, ◌>>=◌}
use StdStream.{StdStreamIoDevice, AnyValue, integer}
use StdStream

-- The classes that implement the interface and are used: a call on one is dispatched here.
pub data IoDevice : Type 0 where
  std_stream : StdStreamIoDevice → IoDevice
  stub : IoDevice

unfoldable pub read_data : IoDevice → ℕ → Outcome (AnyValue × IoDevice)
read_data (std_stream d) len = do (a, d') ← StdStream.read_data d len; ok (a, std_stream d')
read_data stub len = ok (integer 9, stub)

unfoldable pub write_data : IoDevice → AnyValue → ℕ → Outcome IoDevice
write_data (std_stream d) a len = do d' ← StdStream.write_data d a len; ok (std_stream d')
write_data stub a len = ok stub

unfoldable pub ignore_till_char : IoDevice → ℕ → IoDevice
ignore_till_char (std_stream d) ch = std_stream (StdStream.ignore_till_char d ch)
ignore_till_char stub ch = stub
