-- ===== src/Jobs/Worker/Launcher.antt =====
-- A round of `pg_ask_launcher_main` of src/bgworker.rs. A worker that is spawned shows in
-- pg_stat_activity from then on, and a handle is alive as long as its worker is.
use pg_ask.Prelude.{Bool, false, List, [], ◌∷◌, ◌++◌, ◌≡◌, if◌then◌else◌, any, Text, eq}
use pg_ask.Errors.{Result, ok, err}

-- The databases of the live worker backends, and of the handles in the launcher's map.
pub record Workers : Type 0 where
  pub live : List Text
  pub handles : List Text

-- The answers of the postmaster and of the database in one round.
pub record Round : Type 0 where
  pub list_pgask_databases : Result (List Text)
  pub presence_check_works : Text → Bool
  pub spawn_works : Text → Bool

abbrev pub holds : Text → List Text → Bool
holds db dbs = any (λ d. eq d db) dbs

-- `workers.retain(…)`
unfoldable pub retain_alive : List Text → List Text → List Text
retain_alive live [] = []
retain_alive live (db ∷ handles) =
    let rest = retain_alive live handles in if holds db live then db ∷ rest else rest

-- The body of `for db in dbs`.
unfoldable pub ensure_worker : Round → Workers → Text → Workers
unfolding any eq
ensure_worker round w db =
    if holds db w.handles
    then w
    else if round.presence_check_works db
    then (if holds db w.live
        then w
        else if round.spawn_works db
        then record { live = db ∷ w.live; handles = db ∷ w.handles }
        else w)
    else w

unfoldable pub ensure_workers : Round → List Text → Workers → Workers
unfolding ensure_worker
ensure_workers round [] w = w
ensure_workers round (db ∷ dbs) w = ensure_workers round dbs (ensure_worker round w db)

-- Behind the scan: `continue`, or the loop over the databases.
pub scanned : Round → Result (List Text) → Workers → Workers
scanned round (ok dbs) w = ensure_workers round dbs w
scanned round (err e) w = w

unfoldable pub reconcile : Round → Workers → Workers
unfolding retain_alive ensure_workers scanned
reconcile round w =
    scanned round round.list_pgask_databases (record w { handles = retain_alive w.live w.handles })

-- No database has two live workers.
abbrev pub OnePerDatabase : List Text → Type 0
OnePerDatabase [] = Unit
OnePerDatabase (db ∷ dbs) = (holds db dbs ≡ false) × OnePerDatabase dbs

-- What happens to the workers: rounds of launchers, a worker's end, and the start of a launcher,
-- which knows none of the workers that an earlier one has left.
pub data Step : Workers → Workers → Type 0 where
  reconciles : (round : Round) (w : Workers) → Step w (reconcile round w)
  ends :
      (db : Text) (before after handles : List Text)
      → Step
          (record { live = before ++ db ∷ after; handles = handles })
          (record { live = before ++ after; handles = handles })
  restarts : (w : Workers) → Step w (record w { handles = [] })

pub data Reach : Workers → Type 0 where
  start : Reach (record { live = []; handles = [] })
  next : {v w : Workers} → Reach v → Step v w → Reach w
