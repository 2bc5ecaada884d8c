-- ===== src/Fertilizer/Handlers.antt =====
-- What the handlers of pump/pump.service.ts do by what they find, and what they find in the tables of
-- fertilizer/fertilizer.service.ts seen as a pump's.
use Prim.Native.String.{String}
use mathlib.Core.Option
use qs_farm_be.Common.{
  ℕ, ◌+◌, ◌≡◌, refl, ap, ◌∙◌, Option, none, some, List, [], ◌∷◌, ◌++◌, map, find, find-map,
}
use qs_farm_be.Domain.{Uuid, Time}
use qs_farm_be.Pump.{
  Db, PumpSession, Aggregates, PumpStartedEvent, PumpStoppedEvent, PumpDisconnectedEvent, Event,
  started, stopped, disconnected, cleanup, is_running, PumpSessionStatus, InterruptedReason,
  active_of_device, active_with_id, close_session, handle_pump_started, handle_pump_stopped,
  handle_pump_disconnected, new_session, max_number, valid_control_mode, valid_irrigation_mode,
  last_sensor_timestamp,
}
use qs_farm_be.Fertilizer.{
  FertilizerSession, FertilizerStartedEvent, FertilizerStoppedEvent, FertilizerDisconnectedEvent,
  FertEvent, fert_started, fert_stopped, fert_disconnected, fert_cleanup, fert_is_active,
  fert_active_of_device, fert_active_with_id, new_fert_session, max_fert_number, valid_fert_mode,
  end_of_fert_data, active, completed, interrupted, FertilizerSessionStatus,
}
use qs_farm_be.Fertilizer.AsPump.{as_status, as_session, max_number-as_session}

-- The events for the two services differ in what a start says of the irrigation.
abbrev pub as_started : FertilizerStartedEvent → PumpStartedEvent
as_started e = record {
  device_id = e.device_id;
  farm_id = e.farm_id;
  timestamp = e.timestamp;
  irrigation_mode = none;
  control_mode = e.control_mode;
}

abbrev pub as_stopped : FertilizerStoppedEvent → PumpStoppedEvent
as_stopped e = record {
  device_id = e.device_id;
  farm_id = e.farm_id;
  session_id = e.session_id;
  timestamp = e.timestamp;
}

abbrev pub as_disconnected : FertilizerDisconnectedEvent → PumpDisconnectedEvent
as_disconnected e = record { device_id = e.device_id; farm_id = e.farm_id; timestamp = e.timestamp }

abbrev pub as_event : FertEvent → Event
as_event (fert_started i e) = started i (as_started e)
as_event (fert_stopped e) = stopped (as_stopped e)
as_event (fert_disconnected e) = disconnected (as_disconnected e)
as_event (fert_cleanup now) = cleanup now

pub running-as_status :
    (st : FertilizerSessionStatus) → is_running (as_status st) ≡ fert_is_active st
running-as_status active = refl
running-as_status completed = refl
running-as_status interrupted = refl

same_mode : (o : Option String) → valid_control_mode o ≡ valid_fert_mode o
unfolding valid_control_mode valid_fert_mode
same_mode none = refl
same_mode (some m) = refl

module _ {F : Type 0} where
  pub find_device :
      (d : Uuid) (xs : List (FertilizerSession F))
      → find (active_of_device d) (map as_session xs)
        ≡ Option.map as_session (find (fert_active_of_device d) xs)
  find_device d xs =
      find-map as_session (active_of_device d) (fert_active_of_device d) xs
        (λ s. rw (running-as_status s.status) refl)

  pub find_id :
      (i : Uuid) (xs : List (FertilizerSession F))
      → find (active_with_id i) (map as_session xs)
        ≡ Option.map as_session (find (fert_active_with_id i) xs)
  find_id i xs =
      find-map as_session (active_with_id i) (fert_active_with_id i) xs
        (λ s. rw (running-as_status s.status) refl)

  new_session-as_session :
      (i : Uuid) (e : FertilizerStartedEvent) (n : ℕ)
      → new_session i (as_started e) n ≡ as_session (new_fert_session {F = F} i e n)
  unfolding new_session new_fert_session valid_irrigation_mode
  new_session-as_session i e n = rw (same_mode e.control_mode) refl

  map-append :
      (xs : List (FertilizerSession F)) (s : FertilizerSession F)
      → map as_session xs ++ as_session s ∷ [] ≡ map as_session (xs ++ s ∷ [])
  map-append [] s = refl
  map-append (x ∷ xs) s = ap (λ r. as_session x ∷ r) (map-append xs s)

  pub opened :
      (i : Uuid) (e : FertilizerStartedEvent) (xs : List (FertilizerSession F))
      → map as_session xs
          ++ new_session i (as_started e) (max_number e.device_id (map as_session xs) + 1) ∷ []
        ≡ map as_session (xs ++ new_fert_session i e (max_fert_number e.device_id xs + 1) ∷ [])
  opened i e xs =
      ap (λ n. map as_session xs ++ new_session i (as_started e) (n + 1) ∷ [])
        (max_number-as_session e.device_id xs)
      ∙ ap (λ s. map as_session xs ++ s ∷ [])
          (new_session-as_session i e (max_fert_number e.device_id xs + 1))
      ∙ map-append xs (new_fert_session i e (max_fert_number e.device_id xs + 1))

-- The pump's handlers by what they find.
module _ {F : Type 0} (sql : Aggregates F) where
  pub pump_started-none :
      (i : Uuid) (e : PumpStartedEvent) (db : Db F)
      → find (active_of_device e.device_id) db.sessions ≡ none
      → (handle_pump_started i e db).0 ≡ record db {
        sessions = db.sessions ++ new_session i e (max_number e.device_id db.sessions + 1) ∷ [];
      }
  unfolding handle_pump_started
  pump_started-none i e db n = rw (n, handle_pump_started) refl

  pub pump_started-some :
      (i : Uuid) (e : PumpStartedEvent) (db : Db F) (s : PumpSession F)
      → find (active_of_device e.device_id) db.sessions ≡ some s
      → (handle_pump_started i e db).0 ≡ db
  unfolding handle_pump_started
  pump_started-some i e db s n = rw (n, handle_pump_started) refl

  pub pump_stopped-none :
      (e : PumpStoppedEvent) (db : Db F)
      → e.session_id ≡ none
      → find (active_of_device e.device_id) db.sessions ≡ none
      → (handle_pump_stopped sql e db).0 ≡ db
  unfolding handle_pump_stopped
  pump_stopped-none e db n f = rw (n, f, handle_pump_stopped) refl

  pub pump_stopped-reboot :
      (e : PumpStoppedEvent) (db : Db F) (s : PumpSession F)
      → e.session_id ≡ none
      → find (active_of_device e.device_id) db.sessions ≡ some s
      → (handle_pump_stopped sql e db).0
        ≡ (close_session sql db s e.timestamp PumpSessionStatus.interrupted
            (some InterruptedReason.esp_reboot)).0
  unfolding handle_pump_stopped
  pump_stopped-reboot e db s n f = rw (n, f, handle_pump_stopped) refl

  pub pump_stopped-missing :
      (e : PumpStoppedEvent) (db : Db F) (i : Uuid)
      → e.session_id ≡ some i
      → find (active_with_id i) db.sessions ≡ none
      → (handle_pump_stopped sql e db).0 ≡ db
  unfolding handle_pump_stopped
  pump_stopped-missing e db i n f = rw (n, f, handle_pump_stopped) refl

  pub pump_stopped-some :
      (e : PumpStoppedEvent) (db : Db F) (i : Uuid) (s : PumpSession F)
      → e.session_id ≡ some i
      → find (active_with_id i) db.sessions ≡ some s
      → (handle_pump_stopped sql e db).0
        ≡ (close_session sql db s e.timestamp PumpSessionStatus.completed none).0
  unfolding handle_pump_stopped
  pump_stopped-some e db i s n f = rw (n, f, handle_pump_stopped) refl

  pub pump_disconnected-none :
      (e : PumpDisconnectedEvent) (db : Db F)
      → find (active_of_device e.device_id) db.sessions ≡ none
      → (handle_pump_disconnected sql e db).0 ≡ db
  unfolding handle_pump_disconnected
  pump_disconnected-none e db n = rw (n, handle_pump_disconnected) refl

  pub pump_disconnected-some :
      (e : PumpDisconnectedEvent) (db : Db F) (s : PumpSession F) (o : Option Time)
      → find (active_of_device e.device_id) db.sessions ≡ some s
      → last_sensor_timestamp e.device_id db.sensor_data ≡ o
      → (handle_pump_disconnected sql e db).0
        ≡ (close_session sql db s
            (end_of_fert_data o s.started_at e.timestamp)
            PumpSessionStatus.interrupted
            (some InterruptedReason.lwt)).0
  unfolding handle_pump_disconnected
  pump_disconnected-some e db s none f l = rw (f, handle_pump_disconnected, l) refl
  pump_disconnected-some e db s (some t) f l = rw (f, handle_pump_disconnected, l) refl
