-- ===== src/Inotify/Rounds.antt =====
-- What a round of the outer loop does.
use mathlib.Core.List.{reverse}
use lab.Prelude.{
  ℕ, suc, ◌-◌, ◌^◌, ◌<◌, ◌≡◌, refl, ap, ◌∙◌, ltb, le→ltb, if◌then◌else◌, false, List, ◌∷◌, ◌++◌,
  All, some, Bytes, length, drop, le_value-le_bytes, length-append, append_assoc, inl, inr, arith,
}
use lab.Prelude.Result.{Result, ok, ◌>>=◌, Result-cases}
use lab.Inotify.{
  Fault, event_size, event_buffer_sz, Event, field_at, is_new_dir, watch_mask, Kernel,
  add_path_2_watch_list, watch_new_dir, show_batch, listen_2_events,
}
use lab.Inotify.Order.{
  IsEvent, event_bytes, batch_bytes, c_text-padded, length-event_bytes, show_events-order,
}

module _ (k : Kernel) (path : Bytes) where
  open k use {World, read}

  -- The watch that the first event asks for.
  abbrev pub first_watched : Event → World → Result Fault World
  first_watched e w =
      if is_new_dir e.mask
      then add_path_2_watch_list k path w (path ++ b'/' ∷ e.name) watch_mask
      else ok w

  watch_new_dir-first :
      (len : ℕ) (e : Event) (rest : Bytes) (w : World)
      → IsEvent len e
      → watch_new_dir k path (event_bytes e ++ rest) w ≡ first_watched e w
  unfolding watch_new_dir
  watch_new_dir-first len e rest w v =
      let mask : field_at 4 (event_bytes e ++ rest) ≡ e.mask =
        le_value-le_bytes 4 e.mask v.mask_bound in
      let named =
        c_text-padded e.name rest (e.len - length e.name) v.name_text
          (omega (arith, v.same_len, v.name_fits)) in
      rw (mask, named) refl

  show_batch-order :
      (len : ℕ) (e : Event) (es : List Event) (rest : Bytes) (w : World)
      → IsEvent len e
      → All (IsEvent len) es
      → len < 2 ^ 30
      → show_batch k path (batch_bytes (e ∷ es) ++ rest) (length (batch_bytes (e ∷ es))) w
        ≡ (first_watched e w >>= λ w'. ok (e ∷ reverse es, w'))
  unfolding show_batch
  show_batch-order len e es rest w v vs h =
      let batch = batch_bytes (e ∷ es) in
      let long : ltb (length batch) event_size ≡ false = le→ltb (length batch) event_size (
        omega
          (arith, length-append (event_bytes e) (batch_bytes es), length-event_bytes len e v)) in
      let first : watch_new_dir k path (batch ++ rest) w ≡ first_watched e w =
        ap (λ x. watch_new_dir k path x w) (append_assoc (event_bytes e) (batch_bytes es) rest)
        ∙ watch_new_dir-first len e (batch_bytes es ++ rest) w v in
      rw (long, first, show_events-order len e es rest v vs h) refl

  -- A round of the outer loop that reads events whose names have equal room, of less than 2^30 bytes,
  -- and a null byte at the end: each is shown once, the first one, then the last one, and from there back to the second. Where the first one is a new
  -- directory, its path is added to the list of watches, or the program ends; no other event of the
  -- batch adds one. The loop goes on with the bytes in its buffer.
  pub listen_2_events-order :
      (len rounds : ℕ) (e : Event) (es : List Event) (buffer : Bytes) (w w' : World)
      → IsEvent len e
      → All (IsEvent len) es
      → len < 2 ^ 30
      → read w event_buffer_sz ≡ (some (batch_bytes (e ∷ es)), w')
      → listen_2_events k path (suc rounds) buffer w ≡ (do
        w'' ← first_watched e w'
        let filled = batch_bytes (e ∷ es) ++ drop (length (batch_bytes (e ∷ es))) buffer
        (batches, last) ← listen_2_events k path rounds filled w''
        ok ((e ∷ reverse es) ∷ batches, last))
  unfolding listen_2_events
  listen_2_events-order len rounds e es buffer w w' v vs h got =
      let rest = drop (length (batch_bytes (e ∷ es))) buffer in
      rw (got, show_batch-order len e es rest w' v vs h)
        (elim (Result-cases (first_watched e w')) [
          | inl (w'', watched) ↦ rw watched refl
          | inr (f, failed) ↦ rw failed refl
        ])
