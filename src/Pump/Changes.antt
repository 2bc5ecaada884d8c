-- ===== src/Pump/Changes.antt =====
-- The abstract view of pump/pump.service.ts: a session is opened for a device that has none running,
-- or a running one is closed.
use qs_farm_be.Common.{◌+◌, ◌≡◌, ◌≢◌, Option, none, some, [], ◌∷◌, ◌++◌, Memᴰ, All, find}
use qs_farm_be.Domain.{Uuid, Time}
use qs_farm_be.Pump.{
  PumpSession, PumpSessionStatus, InterruptedReason, Db, Aggregates, PumpStartedEvent, running,
  completed, interrupted, active_of_device, max_number, new_session, close_session,
}
use qs_farm_be.Pump.Sessions.{ids}

-- How a session may end.
pub data Verdict : Type 0 where
  finished : Verdict
  cut : InterruptedReason → Verdict

abbrev pub status_of : Verdict → PumpSessionStatus
status_of finished = completed
status_of (cut r) = interrupted

abbrev pub reason_of : Verdict → Option InterruptedReason
reason_of finished = none
reason_of (cut r) = some r

-- The id of a new row is in no row yet.
abbrev pub IsFresh : {F : Type 0} → Uuid → Db F → Type 0
IsFresh i db = All (λ n. n ≢ i) (ids db.sessions)

module _ {F : Type 0} (sql : Aggregates F) where
  pub data Change : Db F → Db F → Type 0 where
    opens :
        (db : Db F) (new_id : Uuid) (event : PumpStartedEvent)
        → IsFresh new_id db
        → find (active_of_device event.device_id) db.sessions ≡ none
        → Change db (record db {
          sessions =
              db.sessions
              ++ new_session new_id event (max_number event.device_id db.sessions + 1) ∷ [];
        })
    closes :
        (db : Db F) (s : PumpSession F) (ended_at : Time) (v : Verdict)
        → Memᴰ s db.sessions
        → s.status ≡ running
        → Change db (close_session sql db s ended_at (status_of v) (reason_of v)).0

  pub data Changes : Db F → Db F → Type 0 where
    here : {db : Db F} → Changes db db
    next : {a b c : Db F} → Change a b → Changes b c → Changes a c

  pub Changes-trans : {a b c : Db F} → Changes a b → Changes b c → Changes a c
  Changes-trans here ys = ys
  Changes-trans (next x xs) ys = next x (Changes-trans xs ys)
