-- ===== src/Tests/Connections.antt =====
-- src/https.hpp over a network at concrete replies.
use cdnalizerd.Base.{ℕ, suc, ◌≡◌, refl, Bool, true, [], ◌∷◌, some, ltb}
use cdnalizerd.Base.Text.{Text, codes}
use cdnalizerd.Https.{
  system_category, Codes, Network, Https, disconnect, make_https, destroy_https, reconnect, reads,
  takes, reconnects, use_all,
}
use cdnalizerd.Https.Laws.{IsReady, checking, https-IsReady}
use cdnalizerd.Base.{List, zero}
use cdnalizerd.Job.{Job}
use cdnalizerd.Url.Parser.{Url}
use cdnalizerd.Worker.{Worker, ready}
use cdnalizerd.Worker.Connected.{Usage}

-- The numbers on Linux.
abbrev linux : Codes
linux = record { short_read = 0x140000DB; eof = 2; operation_aborted = 125; success = 0 }

-- The world counts the connections. Its second handshake fails, and each shutdown was aborted.
abbrev shaky : Network
shaky = record {
  World = ℕ;
  Endpoints = Text;
  resolve = λ name n. (some name, n);
  connect_socket = λ e n. (true, n);
  set_no_delay = λ n. (true, n);
  handshake = λ s n. (ltb n 1, suc n);
  shutdown = λ s n. (record { category = system_category; value = 125 }, n);
}

abbrev storage : Https shaky linux
storage = record {
  hostname = codes "storage";
  stream = some (checking shaky linux (codes "storage"));
  read_buffer = [];
  warnings = [];
  world = 1;
}

https-IsReady_example :
    (c : Https shaky linux) × (use_all shaky linux
        (reads (codes "reply") 1 ∷ takes 2 ∷ reconnects ∷ [])
        (make_https shaky linux (codes "storage") 0).1
      ≡ some c)
    × IsReady shaky linux (codes "storage") c
    × ((r : Bool × Https shaky linux) × (reconnect shaky linux c ≡ some r)
        × IsReady shaky linux (codes "storage") r.1
        × (r.1.read_buffer ≡ []))
    × ((d : Https shaky linux) × (destroy_https shaky linux c ≡ some d))
unfolding make_https
https-IsReady_example =
    https-IsReady shaky linux (codes "storage") 0
      (reads (codes "reply") 1 ∷ takes 2 ∷ reconnects ∷ []) refl

-- An aborted shutdown is of the system's category, so it is logged.
aborted_run :
    disconnect shaky linux storage
    ≡ some (record storage { warnings = record { category = system_category; value = 125 } ∷ [] })
unfolding disconnect
aborted_run = refl

-- Jobs that read a reply and take a part of it. One is queued during the first wait, and jobs fail over
-- the second connection.
abbrev brought : ℕ → List (Job ℕ)
brought zero = record { id = 4; name = codes "late"; work = 1 } ∷ []
brought (suc n) = []

abbrev jobs : Usage ℕ shaky linux
jobs = record {
  uses = λ job n. reads (codes "reply") n ∷ takes 3 ∷ [];
  succeeds = λ job n. ltb n 2;
  idles = λ n. true;
  arrivals = brought;
}

abbrev loaded : Worker ℕ
loaded = record {
  state = ready;
  queue = record { id = 3; name = codes "first"; work = 0 } ∷ [];
  url = codes "https://storage/v1";
}

abbrev loaded_url : Url
loaded_url = record {
  raw = codes "https://storage/v1";
  scheme = codes "https://";
  user = [];
  password = [];
  host = codes "storage";
  port = [];
  path = codes "/v1";
  search = [];
  path_and_search = codes "/v1";
}
