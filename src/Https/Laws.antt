-- ===== src/Https/Laws.antt =====
-- What an object of the class `HTTPS` (src/https.hpp) keeps, and what its shutdown reports.
use cdnalizerd.Base.{
  ℕ, ◌≡◌, ◌↔◌, ◌⊎◌, inl, inr, refl, ap, ◌∙◌, Bool, true, false, List, [], ◌∷◌, ◌++◌, some, drop,
  length, length-append, arith, Bool-cases, Option-cases,
}
use cdnalizerd.Base.Text.{Text}
use cdnalizerd.Https.{
  Category, misc_category, ssl_category, system_category, other_category, Codes, same_category,
  Stream, Network, Https, new_stream, connect, expected, disconnect, make_https, destroy_https,
  reconnect, Use, reads, takes, reconnects, use_https, use_all,
}

module _ (N : Network) (codes : Codes) where
  abbrev pub checking : Text → Stream
  checking hostname = record { verify_peer = true; verified_name = some hostname }

  -- There is a stream, and it checks that the other side is the host of this name.
  pub record IsReady (hostname : Text) (c : Https N codes) : Type 0 where
    pub host : c.hostname ≡ hostname
    pub stream : c.stream ≡ some (checking hostname)

  -- The error codes that `disconnect` passes over.
  abbrev pub Silent : Category → ℕ → Type 0
  Silent misc_category value = (value ≡ codes.eof) ⊎ (value ≡ codes.operation_aborted)
  Silent ssl_category value = value ≡ codes.short_read
  Silent system_category value = value ≡ codes.success
  Silent other_category value = ⊥

  expected_iff :
      (k : Category) (v : ℕ)
      → (expected N codes (record { category = k; value = v }) ≡ true) ↔ Silent k v
  unfolding expected same_category
  expected_iff misc_category v = (λ e. ground arith, λ h. ground arith)
  expected_iff ssl_category v = (λ e. ground arith, λ h. ground arith)
  expected_iff system_category v = (λ e. ground arith, λ h. ground arith)
  expected_iff other_category v = (λ e. cc, λ h. absurd h)

  -- The state of the network when the socket is connected.
  abbrev online : Https N codes → N.Endpoints → N.World
  online c found = (N.connect_socket found (N.resolve c.hostname c.world).1).1

  abbrev Connects : Https N codes → Type 0
  Connects c =
      (w : N.World) × ((connect N codes c ≡ (false, record c { world = w }))
        ⊎ ((b : Bool) × (connect N codes c
              ≡ (b, record c { stream = some (checking c.hostname); world = w }))))

  connected_cases :
      (c : Https N codes) (found : N.Endpoints)
      → (N.resolve c.hostname c.world).0 ≡ some found
      → (N.connect_socket found (N.resolve c.hostname c.world).1).0 ≡ true
      → Connects c
  unfolding connect new_stream
  connected_cases c found e f = elim (Bool-cases (N.set_no_delay (online c found)).0) [
    | inl g ↦
        let w = (N.set_no_delay (online c found)).1 in
        let shaken = N.handshake (checking c.hostname) w in
        (shaken.1, inr (shaken.0, rw (connect, e, f, g) refl))
    | inr g ↦ ((N.set_no_delay (online c found)).1, inl (rw (connect, e, f, g) refl))
  ]

  -- `connect` throws with the stream it found, or leaves a new one.
  connect_cases : (c : Https N codes) → Connects c
  unfolding connect new_stream
  connect_cases c = elim (Option-cases (N.resolve c.hostname c.world).0) [
    | inl e ↦ ((N.resolve c.hostname c.world).1, inl (rw (connect, e) refl))
    | inr (found, e) ↦
        elim (Bool-cases (N.connect_socket found (N.resolve c.hostname c.world).1).0) [
          | inl f ↦ connected_cases c found e f
          | inr f ↦ (
            (N.connect_socket found (N.resolve c.hostname c.world).1).1,
            inl (rw (connect, e, f) refl),
          )
        ]
  ]

  -- Where there is a stream, `disconnect` keeps it and the hostname, and it logs the error code of the
  -- shutdown exactly if that is none of the four that it tests for.
  disconnect_warns :
      (c : Https N codes) (s : Stream)
      → c.stream ≡ some s
      → (d : Https N codes) × (disconnect N codes c ≡ some d)
        × (d.hostname ≡ c.hostname)
        × (d.stream ≡ c.stream)
        × ((d.warnings ≡ c.warnings)
            ↔ Silent (N.shutdown s c.world).0.category (N.shutdown s c.world).0.value)
  unfolding disconnect
  disconnect_warns c s e =
      let ec = (N.shutdown s c.world).0 in
      let w = (N.shutdown s c.world).1 in
      let (f, g) = expected_iff ec.category ec.value in
      elim (Bool-cases (expected N codes ec)) [
        | inl h ↦ (record c { world = w }, rw (e, h) refl, refl, refl, (λ _. f h, λ _. refl))
        | inr h ↦ (
          record c { world = w; warnings = c.warnings ++ ec ∷ [] },
          rw (e, h) refl,
          refl,
          refl,
          (
            λ k. absurd (omega (arith, ap length k, length-append c.warnings (ec ∷ []))),
            λ k. absurd (cc (g k, h)),
          ),
        )
      ]

  pub connect-IsReady :
      (hostname : Text) (c : Https N codes)
      → c.hostname ≡ hostname
      → (IsReady hostname c ⊎ ((connect N codes c).0 ≡ true))
      → IsReady hostname (connect N codes c).1 × ((connect N codes c).1.read_buffer ≡ c.read_buffer)
  connect-IsReady hostname c e h =
      let (w, left) = connect_cases c in
      elim left [
        | inl k ↦ rw k (still w h k, refl)
        | inr (b, k) ↦ rw k (record { host = e; stream = ap (λ n. some (checking n)) e }, refl)
      ]
    where
      still :
          (w : N.World)
          → (IsReady hostname c ⊎ ((connect N codes c).0 ≡ true))
          → connect N codes c ≡ (false, record c { world = w })
          → IsReady hostname (record c { world = w })
      still w (inl r) k = record { host = r.host; stream = r.stream }
      still w (inr r) k = absurd (cc (r, ap (λ p. p.0) k))

  pub disconnect-IsReady :
      (hostname : Text) (c : Https N codes)
      → IsReady hostname c
      → (d : Https N codes) × (disconnect N codes c ≡ some d) × IsReady hostname d
  disconnect-IsReady hostname c ready =
      let (d, e, host, stream, warns) = disconnect_warns c (checking hostname) ready.stream in
      (d, e, record { host = host ∙ ready.host; stream = stream ∙ ready.stream })

  drop_all : (t : Text) → drop (length t) t ≡ []
  drop_all [] = refl
  drop_all (b ∷ t) = drop_all t

  -- A connection that is ready stays so, and reconnecting, whether it throws or returns, empties the
  -- buffer.
  pub reconnect-IsReady :
      (hostname : Text) (c : Https N codes)
      → IsReady hostname c
      → (r : Bool × Https N codes) × (reconnect N codes c ≡ some r)
        × IsReady hostname r.1
        × (r.1.read_buffer ≡ [])
  unfolding reconnect
  reconnect-IsReady hostname c ready =
      let (d, e, still) = disconnect-IsReady hostname c ready in
      let d' = record d { read_buffer = drop (length d.read_buffer) d.read_buffer } in
      let kept : IsReady hostname d' = record { host = still.host; stream = still.stream } in
      let (again, buffer) = connect-IsReady hostname d' still.host (inl kept) in
      (connect N codes d', rw (reconnect, e) refl, again, buffer ∙ drop_all d.read_buffer)

  pub use_all-IsReady :
      (hostname : Text) (us : List (Use N codes)) (c : Https N codes)
      → IsReady hostname c
      → (d : Https N codes) × (use_all N codes us c ≡ some d) × IsReady hostname d
  unfolding use_all use_https
  use_all-IsReady hostname [] c ready = (c, refl, ready)
  use_all-IsReady hostname (reads bytes w ∷ us) c ready =
      use_all-IsReady hostname us _ (record { host = ready.host; stream = ready.stream })
  use_all-IsReady hostname (takes n ∷ us) c ready =
      use_all-IsReady hostname us _ (record { host = ready.host; stream = ready.stream })
  use_all-IsReady hostname (reconnects ∷ us) c ready =
      let (r, e, again, empty) = reconnect-IsReady hostname c ready in
      let (d, f, after) = use_all-IsReady hostname us r.1 again in (d, rw e f, after)

  -- Once the constructor has returned, whatever is read into the buffer and taken from it, and however
  -- often the connection is made again, with or without success: no stream is used that is not there,
  -- the stream always checks the other side against the hostname that was asked for, the next
  -- reconnection leaves an empty buffer, and the destructor runs.
  pub https-IsReady :
      (hostname : Text) (world : N.World) (us : List (Use N codes))
      → (make_https N codes hostname world).0 ≡ true
      → (c : Https N codes) × (use_all N codes us (make_https N codes hostname world).1 ≡ some c)
        × IsReady hostname c
        × ((r : Bool × Https N codes) × (reconnect N codes c ≡ some r)
            × IsReady hostname r.1
            × (r.1.read_buffer ≡ []))
        × ((d : Https N codes) × (destroy_https N codes c ≡ some d))
  unfolding make_https destroy_https
  https-IsReady hostname world us made =
      let (ready, buffer) = connect-IsReady hostname _ refl (inr made) in
      let (c, e, still) = use_all-IsReady hostname us (make_https N codes hostname world).1 ready in
      let (d, f, last) = disconnect-IsReady hostname c still in
      (c, e, still, reconnect-IsReady hostname c still, (d, rw (destroy_https, still.stream) f))
