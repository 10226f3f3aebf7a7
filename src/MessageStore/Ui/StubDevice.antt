-- ===== src/MessageStore/Ui/StubDevice.antt =====
-- MessageStore/test: the requests of the task on the stub device that the unit tests plug in.
use lab.Prelude.{◌≡◌, refl, ℕ, Bytes, Bool}
use lab.MessageStore.Outcome.{raised, bad_any_cast}
use lab.MessageStore.Device.{stub, read_data, write_data}
use lab.MessageStore.Users.{UserManager}
use lab.MessageStore.Ui.{
  ClientUiTask, display, say, read_line_from_stream, parse_user_from_input, handle_add_user,
  handle_send_to_user, handle_recv_for_user,
}

abbrev pub stub_task : UserManager → Bool → ClientUiTask
stub_task m running = record { io_device = stub; user_manager = m; keep_running = running }

-- On the stub device each of the three requests that the tests call ends by a bad `any` cast, for
-- `readData` gives a number there and not a chunk.
pub stub-bad_any_cast :
    (hash : Bytes → ℕ) (m : UserManager) (running : Bool)
    → (handle_add_user hash (stub_task m running) ≡ raised bad_any_cast)
      × (handle_send_to_user hash (stub_task m running) ≡ raised bad_any_cast)
      × (handle_recv_for_user hash (stub_task m running) ≡ raised bad_any_cast)
unfolding handle_add_user handle_send_to_user handle_recv_for_user say display write_data read_data
    parse_user_from_input read_line_from_stream
stub-bad_any_cast hash m running = (refl, refl, refl)
