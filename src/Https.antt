-- ===== src/Https.antt =====
-- The class `HTTPS` of src/https.hpp. Boost.Asio and OpenSSL are parameters: each call that can throw
-- says if it returned, and the shutdown gives its error code.
pub mod Laws
use cdnalizerd.Base.{
  ℕ, ◌+◌, Bool, true, false, ◌&&◌, ◌||◌, List, [], ◌∷◌, ◌++◌, Option, none, some, drop, length,
  ◌==◌, if◌then◌else◌, ◌>>=◌,
}
use cdnalizerd.Base.Text.{Text}

pub data Category : Type 0 where
  misc_category ssl_category system_category other_category : Category

pub record ErrorCode : Type 0 where
  pub category : Category
  pub value : ℕ

-- The numbers that the libraries give to errors: `SSL_R_SHORT_READ` packed, `misc_errors::eof`,
-- `basic_errors::operation_aborted` and `errc::success`.
pub record Codes : Type 0 where
  pub short_read : ℕ
  pub eof : ℕ
  pub operation_aborted : ℕ
  pub success : ℕ

unfoldable same_category : Category → Category → Bool
same_category misc_category misc_category = true
same_category ssl_category ssl_category = true
same_category system_category system_category = true
same_category other_category other_category = true
same_category _ _ = false

-- A TLS stream over the socket, and what it checks of the other side.
pub record Stream : Type 0 where
  pub verify_peer : Bool
  pub verified_name : Option Text

pub record Network : Type 1 where
  pub World : Type 0
  pub Endpoints : Type 0
  pub resolve : Text → World → Option Endpoints × World
  pub connect_socket : Endpoints → World → Bool × World
  pub set_no_delay : World → Bool × World
  pub handshake : Stream → World → Bool × World
  pub shutdown : Stream → World → ErrorCode × World

module _ (N : Network) (codes : Codes) where
  -- The fields `hostname`, `s` and `read_buffer`, and the error codes that were logged.
  pub record Https : Type 0 where
    pub hostname : Text
    pub stream : Option Stream
    pub read_buffer : Text
    pub warnings : List ErrorCode
    pub world : N.World

  unfoldable new_stream : Https → Stream
  new_stream c = record { verify_peer = true; verified_name = some c.hostname }

  -- `connect`: whether it returned, or threw, and what it leaves.
  unfoldable pub connect : Https → Bool × Https
  unfolding new_stream
  connect c =
      let (lookup, w) = N.resolve c.hostname c.world in
      elim lookup [
        | none ↦ (false, record c { world = w })
        | some endpoints ↦
            let (connected, w') = N.connect_socket endpoints w in
            if connected
            then (let (set, w'') = N.set_no_delay w' in
                if set
                then (let s = new_stream c in
                    let (shaken, w''') = N.handshake s w'' in
                    (shaken, record c { stream = some s; world = w''' }))
                else (false, record c { world = w'' }))
            else (false, record c { world = w' })
      ]

  -- The four tests of `disconnect`: the codes for which it returns in silence.
  unfoldable expected : ErrorCode → Bool
  unfolding same_category
  expected ec =
      (same_category ec.category ssl_category && (ec.value == codes.short_read))
      || ((same_category ec.category misc_category && (ec.value == codes.eof))
          || ((same_category ec.category misc_category && (ec.value == codes.operation_aborted))
              || (same_category ec.category system_category && (ec.value == codes.success))))

  -- `disconnect`; `none` stands for the use of a stream that is not there.
  unfoldable pub disconnect : Https → Option Https
  unfolding expected
  disconnect c = elim c.stream [
    | none ↦ none
    | some s ↦
        let (ec, w) = N.shutdown s c.world in
        some (
          if expected ec
          then record c { world = w }
          else record c { world = w; warnings = c.warnings ++ ec ∷ [] })
  ]

  -- The constructor: where it throws, there is no object.
  unfoldable pub make_https : Text → N.World → Bool × Https
  unfolding connect
  make_https hostname world = connect (record {
    hostname = hostname;
    stream = none;
    read_buffer = [];
    warnings = [];
    world = world;
  })

  -- The destructor.
  unfoldable pub destroy_https : Https → Option Https
  unfolding disconnect
  destroy_https c = elim c.stream [ none ↦ some c | some s ↦ disconnect c ]

  unfoldable pub reconnect : Https → Option (Bool × Https)
  unfolding connect disconnect
  reconnect c = disconnect c >>= λ d.
      some (connect (record d { read_buffer = drop (length d.read_buffer) d.read_buffer }))

  -- What the users of a connection do: they read into the buffer, take from it, and reconnect.
  pub data Use : Type 0 where
    reads : Text → N.World → Use
    takes : ℕ → Use
    reconnects : Use

  unfoldable pub use_https : Use → Https → Option Https
  unfolding reconnect
  use_https (reads bytes w) c = some (record c { read_buffer = c.read_buffer ++ bytes; world = w })
  use_https (takes n) c = some (record c { read_buffer = drop n c.read_buffer })
  use_https reconnects c = reconnect c >>= λ r. some r.1

  unfoldable pub use_all : List Use → Https → Option Https
  unfolding use_https
  use_all [] c = some c
  use_all (u ∷ us) c = use_https u c >>= λ d. use_all us d
