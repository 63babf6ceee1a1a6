-- ===== src/Worker/Connected/Laws.antt =====
-- `doWork` of src/Worker.cpp over the class `HTTPS`: the connection is there whenever it is used.
use cdnalizerd.Base.Text.{Text}
use cdnalizerd.Job.{Job}
use cdnalizerd.Url.Parser.{Url}
use cdnalizerd.Https.{Codes, Network, Https}
use cdnalizerd.Https.Laws.{IsReady}
use cdnalizerd.Worker.{Worker}
use cdnalizerd.Worker.Connected.{Usage, Conn, online, broken}

module _ {Work : Type 0} {N : Network} {codes : Codes} (S : Usage Work N codes) (host : Text) where
  abbrev pub IsOnline : Conn S host → Type 0
  IsOnline (online c) = IsReady N codes host c
  IsOnline _ = ⊥

  abbrev pub IsUnbroken : Conn S host → Type 0
  IsUnbroken broken = ⊥
  IsUnbroken _ = Unit
