-- ===== src/Worker/Connected.antt =====
-- `doWork` of src/Worker.cpp over an object of the class `HTTPS` (src/https.hpp): the connection it makes,
-- hands to each job, and makes again behind a job that failed.
pub mod Laws
use cdnalizerd.Base.{
  ℕ, zero, suc, ◌+◌, ◌≤◌, ◌<◌, ◌≡◌, inl, inr, refl, ap, sym, ◌∙◌, Bool, true, false, List, [], ◌∷◌,
  ◌++◌, Option, none, some, length, ◌>>=◌,
}
use cdnalizerd.Base.Holds.{Holds, Holds-some}
use cdnalizerd.Base.Text.{Text}
use cdnalizerd.Job.{Job}
use cdnalizerd.Https.{Codes, Network, Https, make_https, destroy_https, reconnect, Use, use_all}
use cdnalizerd.Worker.Loop.{Environment, Reply}

-- How a job uses the connection, whether it ends without an exception, whether the idle second does, and
-- which jobs others queue during each wait, the waits being numbered.
pub record Usage (Work : Type 0) (N : Network) (codes : Codes) : Type 0 where
  pub uses : Job Work → N.World → List (Use N codes)
  pub succeeds : Job Work → N.World → Bool
  pub idles : N.World → Bool
  pub arrivals : ℕ → List (Job Work)

module _ {Work : Type 0} {N : Network} {codes : Codes} (S : Usage Work N codes) (host : Text) where
  -- The network before the connection is made; the object `conn`; and the use of a stream that is not
  -- there.
  pub data Conn : Type 0 where
    offline : N.World → Conn
    online : Https N codes → Conn
    broken : Conn

  -- With the number of the waits so far.
  pub record Link : Type 0 where
    pub waits : ℕ
    pub conn : Conn

  -- Behind a wait: the connection, and whether something threw.
  unfoldable pub settle : ℕ → Option (Bool × Https N codes) → Reply Work Link
  settle n none = record {
    success = false;
    arrivals = S.arrivals n;
    world = record { waits = suc n; conn = broken };
  }
  settle n (some (b, c)) = record {
    success = b;
    arrivals = S.arrivals n;
    world = record { waits = suc n; conn = online c };
  }

  -- What a job does to the connection.
  unfoldable pub run_job : Job Work → Https N codes → Option (Bool × Https N codes)
  run_job job c = elim (use_all N codes (S.uses job c.world) c) [
    | none ↦ none
    | some d ↦ some (S.succeeds job c.world, d)
  ]

  unfoldable pub on_conn :
      (Https N codes → Option (Bool × Https N codes)) → Conn → Option (Bool × Https N codes)
  on_conn step (online c) = step c
  on_conn step (offline w) = none
  on_conn step broken = none

  unfoldable pub make_conn : Conn → Option (Bool × Https N codes)
  make_conn (offline w) = some (make_https N codes host w)
  make_conn (online c) = none
  make_conn broken = none

  -- The destructor at the end of the scope.
  unfoldable pub shut : Https N codes → Option (Bool × Https N codes)
  shut c = destroy_https N codes c >>= λ d. some (true, d)

  -- The environment of a worker whose URL has this host.
  abbrev pub https_environment : Environment Work
  https_environment = record {
    World = Link;
    connect = λ l. settle l.waits (make_conn l.conn);
    go = λ job l. settle l.waits (on_conn (run_job job) l.conn);
    reconnect = λ l. settle l.waits (on_conn (reconnect N codes) l.conn);
    wait = λ l. settle l.waits (on_conn (λ c. some (S.idles c.world, c)) l.conn);
    close = λ l. settle l.waits (on_conn shut l.conn);
  }

  -- The jobs that others queued during the first waits.
  abbrev pub queued_before : ℕ → List (Job Work)
  queued_before zero = []
  queued_before (suc n) = queued_before n ++ S.arrivals n
