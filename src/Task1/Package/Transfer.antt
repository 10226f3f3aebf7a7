-- ===== src/Task1/Package/Transfer.antt =====
-- A package over a reliable link: what is sent is what is received.
use lab.Prelude.{
  ℕ, zero, suc, ◌+◌, ◌-◌, ◌^◌, ◌≤◌, ◌<◌, ◌≡◌, ◌≢◌, refl, [], ◌∷◌, ◌++◌, Bytes, length, take, drop,
  min, le_bytes, le_value, le_value-le_bytes, arith, ap, sym, ◌∙◌, length-append, append_assoc,
  take-append-drop, ==_of_ne, le→ltb, subst, append-nil, List-cases, inl, inr, length-drop,
}
use lab.Prelude.Result.{Result, ok, raised}
use lab.Task1.Link.{Link, IsReliable, Fault, disconnected}
use lab.Task1.Package.{
  PackageHeader, recv_loop, recv_package, send_loop, send_package, decode_header, encode_header,
  package_bytes, header_size, maximum_package_buffer_size,
}

split-prefix :
    (xs ys body rest : Bytes)
    → xs ++ ys ≡ body ++ rest
    → length xs ≤ length body
    → (more : Bytes) × (body ≡ xs ++ more) × (ys ≡ more ++ rest)
split-prefix [] ys body rest e h = (body, refl, e)
split-prefix (x ∷ xs) ys [] rest e h = absurd (omega arith)
split-prefix (x ∷ xs) ys (b ∷ body) rest e h =
    let tails : xs ++ ys ≡ body ++ rest = cc e in
    let heads : x ≡ b = cc e in
    let (more, p, q) = split-prefix xs ys body rest tails (omega arith) in (more, cc (heads, p), q)

module _ (k : Link) (r : IsReliable k) where
  open k use {Sock, recv, send}
  open r use {incoming, outgoing}

  -- The call gives these bytes and leaves the rest to be received, with nothing sent.
  abbrev pub Receives : {A : Type 0} → Sock → A → Bytes → Result Fault (A × Sock) → Type 0
  Receives s a rest m =
      (s' : Sock) × (m ≡ ok (a, s')) × (incoming s' ≡ rest) × (outgoing s' ≡ outgoing s)

  recv_loop_round :
      (fuel limit left : ℕ) (s s' : Sock) (bytes more whole rest : Bytes)
      → recv s (min (suc left) limit) ≡ ok (bytes, s')
      → 1 ≤ length bytes
      → length bytes ≤ min (suc left) limit
      → outgoing s' ≡ outgoing s
      → whole ≡ bytes ++ more
      → Receives s' more rest (recv_loop k fuel limit (suc left - length bytes) s')
      → Receives s whole rest (recv_loop k (suc fuel) limit (suc left) s)
  unfolding recv_loop
  recv_loop_round fuel limit left s s' bytes more whole rest got some fits same split
        (s'', next, left_over, same') =
      let there = ==_of_ne (length bytes) 0 (λ e. omega arith) in
      let inside = le→ltb (min (suc left) limit) (length bytes) fits in
      (s'', rw (got, there, inside, next, split, recv_loop), left_over, same' ∙ same)

  recv_loop-Receives :
      (fuel limit left : ℕ) (s : Sock) (body rest : Bytes)
      → left ≤ fuel
      → 1 ≤ limit
      → length body ≡ left
      → incoming s ≡ body ++ rest
      → Receives s body rest (recv_loop k fuel limit left s)
  unfolding recv_loop
  recv_loop-Receives fuel limit zero s [] rest f l e h = (s, refl, h, refl)
  recv_loop-Receives fuel limit zero s (c ∷ body) rest f l e h = absurd (omega arith)
  recv_loop-Receives zero limit (suc left) s body rest f l e h = absurd (omega arith)
  recv_loop-Receives (suc fuel) limit (suc left) s [] rest f l e h = absurd (omega arith)
  recv_loop-Receives (suc fuel) limit (suc left) s (c ∷ body) rest f l e h =
      let there : incoming s ≢ [] = λ z. cc (h, z) in
      let (bytes, s', got, some, fits, came, same) =
        r.recv_some s (min (suc left) limit) (omega arith) there in
      let (more, p, q) =
        split-prefix bytes (incoming s') (c ∷ body) rest (came ∙ h) (omega arith) in
      let size = ap length p ∙ length-append bytes more in
      recv_loop_round fuel limit left s s' bytes more (c ∷ body) rest got some fits same p (
        recv_loop-Receives fuel limit (suc left - length bytes) s' more rest (omega arith) l
          (omega arith) q)

  abbrev header_of : ℕ → Bytes → PackageHeader
  header_of flags body = record { package_size = length body; package_flags = flags }

  decode-encode :
      (size flags : ℕ)
      → size < 2 ^ 32
      → flags < 2 ^ 32
      → decode_header k (encode_header k (record { package_size = size; package_flags = flags }))
        ≡ record { package_size = size; package_flags = flags }
  decode-encode size flags h l =
      let a = le_value-le_bytes 4 (k.conv_htonl size) (r.htonl-lt size h) ∙ refl in
      let b = le_value-le_bytes 4 (k.conv_htonl flags) (r.htonl-lt flags l) ∙ refl in
      let size_back : k.conv_ntohl (le_value (le_bytes 4 (k.conv_htonl size))) ≡ size =
        ap k.conv_ntohl a ∙ r.ntohl-htonl size h in
      let flags_back : k.conv_ntohl (le_value (le_bytes 4 (k.conv_htonl flags))) ≡ flags =
        ap k.conv_ntohl b ∙ r.ntohl-htonl flags l in
      cc (size_back, flags_back)

  recv_package_parts :
      (s s' s'' : Sock) (bytes body : Bytes) (h : PackageHeader)
      → decode_header k bytes ≡ h
      → recv_loop k header_size header_size header_size s ≡ ok (bytes, s')
      → recv_loop k h.package_size maximum_package_buffer_size h.package_size s' ≡ ok (body, s'')
      → recv_package k s ≡ ok ((h, body), s'')
  unfolding recv_package
  recv_package_parts s s' s'' bytes body h decoded got =
      subst
        (λ x.
          recv_loop k x.package_size maximum_package_buffer_size x.package_size s' ≡ ok (body, s'')
          → recv_package k s ≡ ok ((x, body), s''))
        decoded λ got'. rw (got, got')

  -- A package that comes in is taken as it was sent, header and message, in whatever pieces it
  -- comes, and nothing of what follows it.
  pub recv_package-Receives :
      (flags : ℕ) (body rest : Bytes) (s : Sock)
      → length body < 2 ^ 32
      → flags < 2 ^ 32
      → incoming s ≡ package_bytes k flags body ++ rest
      → Receives s (header_of flags body, body) rest (recv_package k s)
  recv_package-Receives flags body rest s small low e =
      let head = encode_header k (header_of flags body) in
      let eight =
        length-append (le_bytes 4 (k.conv_htonl (length body))) (le_bytes 4 (k.conv_htonl flags)) in
      let (s', got, left_over, same) =
        recv_loop-Receives header_size header_size header_size s head (body ++ rest) (omega arith)
          (omega arith) refl (e ∙ append_assoc head body rest) in
      let (s'', got', left_over', same') =
        recv_loop-Receives (length body) maximum_package_buffer_size (length body) s' body rest
          (omega arith) (omega arith) refl left_over in
      (
        s'',
        recv_package_parts s s' s'' head body (header_of flags body)
            (decode-encode (length body) flags small low) got got',
        left_over',
        same' ∙ same,
      )

  -- Where the peer has closed its side before the header of a package is there, the package is not
  -- read.
  recv_loop-short :
      (fuel limit left : ℕ) (s : Sock)
      → left ≤ fuel
      → 1 ≤ limit
      → length (incoming s) < left
      → recv_loop k fuel limit left s ≡ raised disconnected
  unfolding recv_loop
  recv_loop-short fuel limit zero s f l h = absurd (omega arith)
  recv_loop-short zero limit (suc left) s f l h = absurd (omega arith)
  recv_loop-short (suc fuel) limit (suc left) s f l h = elim (List-cases (incoming s)) [
    | inl e ↦ rw (r.recv_closed s (min (suc left) limit) e)
    | inr (c, others, e) ↦
        let there : incoming s ≢ [] = λ z. cc (e, z) in
        let (bytes, s', got, some, fits, came, same) =
          r.recv_some s (min (suc left) limit) (omega arith) there in
        let size = sym (length-append bytes (incoming s')) ∙ ap length came in
        let taken = ==_of_ne (length bytes) 0 (λ z. omega arith) in
        let inside = le→ltb (min (suc left) limit) (length bytes) fits in
        let next =
          recv_loop-short fuel limit (suc left - length bytes) s' (omega arith) l (omega arith) in
        rw (got, taken, inside, next, recv_loop)
  ]

  pub recv_package-short :
      (s : Sock) → length (incoming s) < header_size → recv_package k s ≡ raised disconnected
  unfolding recv_package
  recv_package-short s h =
      rw (recv_loop-short header_size header_size header_size s (omega arith) (omega arith) h)

  -- The call sends these bytes and takes nothing.
  abbrev pub Sends : Sock → Bytes → Result Fault Sock → Type 0
  Sends s bytes m =
      (s' : Sock) × (m ≡ ok s') × (outgoing s' ≡ outgoing s ++ bytes) × (incoming s' ≡ incoming s)

  send_loop-Sends :
      (fuel : ℕ) (bytes : Bytes) (s : Sock)
      → length bytes ≤ fuel
      → Sends s bytes (send_loop k fuel bytes s)
  unfolding send_loop
  send_loop-Sends fuel [] s h = (s, refl, sym (append-nil (outgoing s)), refl)
  send_loop-Sends zero (c ∷ bytes) s h = absurd (omega arith)
  send_loop-Sends (suc fuel) (c ∷ bytes) s h =
      let size = min (length (c ∷ bytes)) maximum_package_buffer_size in
      let piece = take size (c ∷ bytes) in
      let others = drop size (c ∷ bytes) in
      let (s', sent, out, same) = r.send_all s piece in
      let (s'', next, out', same') =
        send_loop-Sends fuel others s' (omega (arith, length-drop size (c ∷ bytes))) in
      (
        s'',
        rw (sent, next, send_loop),
        out'
            ∙ (ap (λ x. x ++ others) out
                ∙ (append_assoc (outgoing s) piece others
                    ∙ ap (λ x. outgoing s ++ x) (take-append-drop size (c ∷ bytes)))),
        same' ∙ same,
      )

  pub send_package-Sends :
      (flags : ℕ) (body : Bytes) (s : Sock)
      → Sends s (package_bytes k flags body) (send_package k flags body s)
  unfolding send_package
  send_package-Sends flags body s =
      send_loop-Sends (header_size + length body) (package_bytes k flags body) s
        (omega (arith, length-append (encode_header k (header_of flags body)) body))
