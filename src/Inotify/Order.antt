-- ===== src/Inotify/Order.antt =====
-- In which order the events of a batch are shown.
use mathlib.Core.List.{reverse, reverse-append}
use lab.Prelude.{
  ℕ, zero, suc, ◌+◌, ◌-◌, ◌^◌, ◌%◌, ◌<◌, ◌≤◌, ◌≡◌, ◌≢◌, refl, sym, ap, ◌∙◌, ==_of_ne, ltb, le→ltb,
  lt→ltb, false, List, [], ◌∷◌, ◌++◌, All, Bytes, length, drop, subst, le_bytes, le_value-le_bytes,
  length-append, append_assoc, append-nil, drop-append_left, arith,
}
use lab.Prelude.Result.{ok, ◌>>=◌}
use lab.Inotify.{event_size, Event, c_text, field_at, print_event, bytes_left, show_events}

abbrev pub padding : ℕ → Bytes
padding zero = []
padding (suc n) = 0 ∷ padding n

-- An event in the buffer: its name is followed by null bytes, at least one, up to its length.
abbrev pub event_bytes : Event → Bytes
event_bytes e =
    le_bytes 4 e.wd
    ++ (le_bytes 4 e.mask
        ++ (le_bytes 4 e.cookie
            ++ (le_bytes 4 e.len ++ (e.name ++ padding (e.len - length e.name)))))

-- An event of the kernel with a name, and a room of `len` bytes for it.
pub record IsEvent (len : ℕ) (e : Event) : Type 0 where
  pub wd_bound : e.wd < 2 ^ 32
  pub mask_bound : e.mask < 2 ^ 32
  pub cookie_bound : e.cookie < 2 ^ 32
  pub same_len : e.len ≡ len
  pub name_fits : length e.name < len
  pub name_text : All (λ c. c ≢ 0) e.name

pub c_text-padded :
    (name rest : Bytes) (n : ℕ)
    → All (λ c. c ≢ 0) name
    → 0 < n
    → c_text (name ++ padding n ++ rest) ≡ ok name
unfolding c_text
c_text-padded [] rest zero t h = absurd (omega arith)
c_text-padded [] rest (suc n) t h = refl
c_text-padded (c ∷ name) rest n (x, t) h = rw (==_of_ne c 0 x, c_text-padded name rest n t h)

length-padding : (n : ℕ) → length (padding n) ≡ n
length-padding zero = refl
length-padding (suc n) = ap suc (length-padding n)

pub length-event_bytes :
    (len : ℕ) (e : Event) → IsEvent len e → length (event_bytes e) ≡ event_size + len
length-event_bytes len e v = omega (
  arith,
  v.same_len,
  v.name_fits,
  length-append e.name (padding (e.len - length e.name)),
  length-padding (e.len - length e.name),
)

same_event :
    (wd mask cookie len : ℕ) (e : Event)
    → wd ≡ e.wd
    → mask ≡ e.mask
    → cookie ≡ e.cookie
    → len ≡ e.len
    → ◌≡◌ {A = Event} (record { wd = wd; mask = mask; cookie = cookie; len = len; name = e.name }) e
same_event wd mask cookie len e p q r t = cc

-- An event is shown as it was put into the buffer.
print_event-event_bytes :
    (len : ℕ) (e : Event) (rest : Bytes)
    → IsEvent len e
    → len < 2 ^ 30
    → print_event (event_bytes e ++ rest) ≡ ok e
unfolding print_event
print_event-event_bytes len e rest v h =
    let whole = event_bytes e ++ rest in
    let long : ltb (length whole) event_size ≡ false =
      le→ltb (length whole) event_size (omega arith) in
    let named =
      c_text-padded e.name rest (e.len - length e.name) v.name_text
        (omega (arith, v.same_len, v.name_fits)) in
    rw (long, named)
      (ap ok (
        same_event (field_at 0 whole) (field_at 4 whole) (field_at 8 whole) (field_at 12 whole) e
          (le_value-le_bytes 4 e.wd v.wd_bound) (le_value-le_bytes 4 e.mask v.mask_bound)
          (le_value-le_bytes 4 e.cookie v.cookie_bound)
          (le_value-le_bytes 4 e.len (omega (arith, v.same_len)))))

bytes_left-event : (len n : ℕ) → len < 2 ^ 30 → bytes_left (event_size + len + n) len ≡ ok n
bytes_left-event len n h =
    let size : (event_size + len) % 2 ^ 32 ≡ event_size + len = omega arith in
    let left : event_size + len + n - (event_size + len) ≡ n = omega arith in
    rw (size, lt→ltb (event_size + len) (2 ^ 31) (omega arith)) (ap ok left)

-- The bytes in front of the buffer and the events behind them, the last one first.
abbrev stored : Bytes → List Event → Bytes
stored front [] = front
stored front (e ∷ es) = stored front es ++ event_bytes e

abbrev room : ℕ → List Event → ℕ
room len [] = 0
room len (e ∷ es) = event_size + len + room len es

length-stored :
    (len : ℕ) (front : Bytes) (es : List Event)
    → All (IsEvent len) es
    → length (stored front es) ≡ length front + room len es
length-stored len front [] v = omega arith
length-stored len front (e ∷ es) (v, vs) = omega (
  arith,
  length-append (stored front es) (event_bytes e),
  length-event_bytes len e v,
  length-stored len front es vs,
)

-- One round of the loop.
show_events-step :
    (len fuel at n bytes_read : ℕ) (buffer rest : Bytes) (e : Event)
    → IsEvent len e
    → len < 2 ^ 30
    → drop at buffer ≡ event_bytes e ++ rest
    → bytes_read ≡ event_size + len + n
    → show_events (suc fuel) buffer at bytes_read
      ≡ (show_events fuel buffer n n >>= λ es. ok (e ∷ es))
unfolding show_events
show_events-step len fuel at n zero buffer rest e v h there size = absurd (omega arith)
show_events-step len fuel at n (suc bytes_read) buffer rest e v h there size =
    rw (there, print_event-event_bytes len e rest v h, v.same_len, size, bytes_left-event len n h)
      refl

-- From the last event on the loop goes through the events backwards, down to the second.
show_events-backwards :
    (len fuel : ℕ) (front rest : Bytes) (es : List Event)
    → length front ≡ event_size + len
    → All (IsEvent len) es
    → len < 2 ^ 30
    → room len es ≤ fuel
    → show_events fuel (stored front es ++ rest) (room len es) (room len es) ≡ ok es
unfolding show_events
show_events-backwards len fuel front rest [] size v h f = refl
show_events-backwards len zero front rest (e ∷ es) size (v, vs) h f = absurd (omega arith)
show_events-backwards len (suc fuel) front rest (e ∷ es) size (v, vs) h f =
    let buffer = stored front (e ∷ es) ++ rest in
    let split = append_assoc (stored front es) (event_bytes e) rest in
    let at : length (stored front es) ≡ room len (e ∷ es) =
      omega (arith, length-stored len front es vs, size) in
    let there : drop (room len (e ∷ es)) buffer ≡ event_bytes e ++ rest =
      ap (λ n. drop n buffer) (sym at)
      ∙ (ap (λ x. drop (length (stored front es)) x) split
          ∙ drop-append_left (stored front es) (event_bytes e ++ rest)) in
    let others : show_events fuel buffer (room len es) (room len es) ≡ ok es =
      ap (λ x. show_events fuel x (room len es) (room len es)) split
      ∙ show_events-backwards len fuel front (event_bytes e ++ rest) es size vs h (omega arith) in
    show_events-step len fuel (room len (e ∷ es)) (room len es) (room len (e ∷ es)) buffer rest e v
      h there refl
    ∙ ap (λ m. m >>= λ found. ok (e ∷ found)) others

-- The bytes of a batch, in the order in which the events came.
abbrev pub batch_bytes : List Event → Bytes
batch_bytes [] = []
batch_bytes (e ∷ es) = event_bytes e ++ batch_bytes es

stored-append :
    (front : Bytes) (xs ys : List Event) → stored front (xs ++ ys) ≡ stored (stored front ys) xs
stored-append front [] ys = refl
stored-append front (x ∷ xs) ys = ap (λ b. b ++ event_bytes x) (stored-append front xs ys)

stored-reverse :
    (front : Bytes) (es : List Event) → stored front (reverse es) ≡ front ++ batch_bytes es
stored-reverse front [] = sym (append-nil front)
stored-reverse front (e ∷ es) =
    ap (stored front) (reverse-append (e ∷ []) es)
    ∙ (stored-append front (reverse es) (e ∷ [])
        ∙ (stored-reverse (front ++ event_bytes e) es
            ∙ append_assoc front (event_bytes e) (batch_bytes es)))

All-append : (P : Event → Type 0) (xs ys : List Event) → All P xs → All P ys → All P (xs ++ ys)
All-append P [] ys v w = w
All-append P (x ∷ xs) ys (v, vs) w = (v, All-append P xs ys vs w)

All-reverse : (P : Event → Type 0) (es : List Event) → All P es → All P (reverse es)
All-reverse P [] v = tt
All-reverse P (e ∷ es) (v, vs) =
    subst (All P) (sym (reverse-append (e ∷ []) es))
      (All-append P (reverse es) (e ∷ []) (All-reverse P es vs) (v, tt))

-- The events of a batch whose names have equal room are shown each once, but not in the order in
-- which they came: the first one, then the last one, and from there back to the second.
pub show_events-order :
    (len : ℕ) (e : Event) (es : List Event) (rest : Bytes)
    → IsEvent len e
    → All (IsEvent len) es
    → len < 2 ^ 30
    → show_events
        (suc (length (batch_bytes (e ∷ es))))
        (batch_bytes (e ∷ es) ++ rest)
        0
        (length (batch_bytes (e ∷ es)))
      ≡ ok (e ∷ reverse es)
show_events-order len e es rest v vs h =
    let front = event_bytes e in
    let all = All-reverse (IsEvent len) es vs in
    let size = length-event_bytes len e v in
    let whole : batch_bytes (e ∷ es) ≡ stored front (reverse es) = sym (stored-reverse front es) in
    let total : length (batch_bytes (e ∷ es)) ≡ event_size + len + room len (reverse es) =
      omega (arith, ap length whole, length-stored len front (reverse es) all, size) in
    let others : show_events (length (batch_bytes (e ∷ es))) (batch_bytes (e ∷ es) ++ rest)
          (room len (reverse es)) (room len (reverse es))
        ≡ ok (reverse es) =
      ap
        (λ x.
          show_events (length (batch_bytes (e ∷ es))) (x ++ rest) (room len (reverse es))
            (room len (reverse es)))
        whole
      ∙ show_events-backwards len (length (batch_bytes (e ∷ es))) front rest (reverse es) size all h
          (omega (arith, total)) in
    show_events-step len (length (batch_bytes (e ∷ es))) 0 (room len (reverse es))
      (length (batch_bytes (e ∷ es))) (batch_bytes (e ∷ es) ++ rest) (batch_bytes es ++ rest) e v h
      (append_assoc front (batch_bytes es) rest) total
    ∙ ap (λ m. m >>= λ found. ok (e ∷ found)) others
