-- ===== src/Inotify/Tests.antt =====
-- A list of watches from which three events are read, and the theorem at its data.
use lab.Prelude.{ℕ, ◌≡◌, refl, true, List, [], ◌∷◌, some, Bytes, codes, arith}
use lab.Prelude.Result.{ok}
use lab.Inotify.{Event, Kernel, add_path_2_watch_list, listen_2_events}
use lab.Inotify.Order.{IsEvent, batch_bytes}
use lab.Inotify.Rounds.{listen_2_events-order}

-- An event for a directory or a file that was made.
abbrev made : ℕ → Bytes → Event
made mask name = record { wd = 1; mask = mask; cookie = 0; len = 16; name = name }

abbrev dir_a : Event
dir_a = made 0x40000100 (codes "a")

abbrev dir_b : Event
dir_b = made 0x40000100 (codes "b")

abbrev file_c : Event
file_c = made 0x100 (codes "c")

made-IsEvent : (IsEvent 16 dir_a) × (IsEvent 16 dir_b) × (IsEvent 16 file_c)
made-IsEvent = (omega arith, omega arith, omega arith)

-- The paths that are watched.
abbrev paths : Kernel
paths = record {
  World = List Bytes;
  read = λ w n. (some (batch_bytes (dir_a ∷ dir_b ∷ file_c ∷ [])), w);
  add_watch = λ w path mask. (true, path ∷ w);
}

listen_2_events-order_example :
    listen_2_events paths (codes "/w") 1 [] []
    ≡ ok ((dir_a ∷ file_c ∷ dir_b ∷ []) ∷ [], codes "/w/a" ∷ [])
unfolding listen_2_events add_path_2_watch_list
listen_2_events-order_example =
    listen_2_events-order paths (codes "/w") 16 0 dir_a (dir_b ∷ file_c ∷ []) [] [] []
      made-IsEvent.0 (made-IsEvent.1, (made-IsEvent.2, tt)) (omega arith) refl
