-- ===== src/Sensors/Sources.antt =====
-- Where the alerts of a telemetry message come from: sensor/sensor.service.ts with
-- zone/config-resolution.service.ts and sensor/threshold.service.ts.
use mathlib.Core.Path.{subst}
use mathlib.Core.List.{Mem}
use mathlib.Core.Logic.{∥∥₁_elim}
use qs_farm_be.Common.{
  ◌+◌, All, ltb, ◌≡◌, refl, sym, ap, Bool, true, false, if◌then◌else◌, ◌⊎◌, inl, inr, some, List,
  [], ◌∷◌, ◌++◌, Memᴰ, arith, find, find-mem, find-test, Option-cases, Bool-cases, List-cases,
}
use qs_farm_be.Domain.{Uuid, Time, SensorType, sensor_eq, sensor_eq-true}
use qs_farm_be.ConfigResolution.{
  ResolvedDeviceContext, resolve_config, resolve_thresholds_for_sensor, ResolvedThreshold,
  get_device_context,
}
use qs_farm_be.Pump.{SensorData}
use qs_farm_be.Threshold.{
  SensorConfig, State, World, Effect, Alert, evaluate, alert_of, thresholds_in_use,
}
use qs_farm_be.Threshold.Scan.{alert_in, Violates, evaluate-Violates}
use qs_farm_be.Sensors.{
  Sensors, LoadedConfig, TelemetryEvent, SensorMode, auto, is_auto, applies, throws, readings_of,
  payload_sensor_types, evaluate_reading, evaluate_readings, process_telemetry,
  get_configs_for_device, stored, load_configs,
}

mem-append : {A : Type 0} (a : A) (xs ys : List A) → Memᴰ a (xs ++ ys) → Memᴰ a xs ⊎ Memᴰ a ys
mem-append a [] ys m = inr m
mem-append a (x ∷ xs) ys (Memᴰ.head e) = inl (Memᴰ.head e)
mem-append a (x ∷ xs) ys (Memᴰ.tail m) = elim (mem-append a xs ys m) [
  | inl k ↦ inl (Memᴰ.tail k)
  | inr k ↦ inr k
]

mem-if :
    {A S : Type 0} (a : A) (b : Bool) (s t : S) (xs ys : List A)
    → (r : S × List A) → r ≡ (if b then (s, xs) else (t, ys))
    → Memᴰ a r.1
    → Memᴰ a xs ⊎ Memᴰ a ys
mem-if {A} a true s t xs ys r e m = inl (subst (λ (ys : List A). Memᴰ a ys) (ap (λ q. q.1) e) m)
mem-if {A} a false s t xs ys r e m = inr (subst (λ (ys : List A). Memᴰ a ys) (ap (λ q. q.1) e) m)

module _ {F : Type 0} (lt : F → F → Bool) where
  -- A reading that an alert may be about, with the config and the threshold in force that it violates.
  pub record Source (event : TelemetryEvent F) (configs : List (LoadedConfig F))
      (context : ResolvedDeviceContext F) (a : Alert F) : Type 0 where
    pub sensor_type : SensorType
    pub value : F
    pub read : event.payload sensor_type ≡ some value
    pub config : LoadedConfig F
    pub listed : Memᴰ config configs
    pub of_type : config.config.sensor_type ≡ sensor_type
    pub enabled : config.config.enabled ≡ true
    pub automatic : config.config.mode ≡ auto
    pub threshold : ResolvedThreshold F
    pub in_force : Mem threshold (
        resolve_thresholds_for_sensor context config.thresholds sensor_type
          (resolve_config context).irrigation_mode)
    pub violated : Violates lt value threshold a.direction a.threshold
    pub same : a ≡ alert_of event.device_id sensor_type value threshold a.direction a.threshold

  is_auto-true : (m : SensorMode) → is_auto m ≡ true → m ≡ auto
  is_auto-true m h = ground (arith, h)

  applies-fields :
      (t : SensorType) (c : LoadedConfig F)
      → applies t c ≡ true
      → (c.config.sensor_type ≡ t) × (c.config.enabled ≡ true) × (c.config.mode ≡ auto)
  applies-fields t c h =
      let ty : sensor_eq c.config.sensor_type t ≡ true = ground (arith, h) in
      let on : is_auto c.config.mode ≡ true = ground (arith, h) in
      (sensor_eq-true c.config.sensor_type t ty, ground (arith, h), is_auto-true c.config.mode on)

  abbrev in_force_for :
      ResolvedDeviceContext F → LoadedConfig F → SensorType → List (ResolvedThreshold F)
  in_force_for context c t =
      resolve_thresholds_for_sensor context c.thresholds t (resolve_config context).irrigation_mode

  abbrev judged_config : LoadedConfig F → SensorConfig F
  judged_config c = record { sensor_type = c.config.sensor_type; thresholds = some c.thresholds }

  evaluate_reading-Source :
      (w : World) (event : TelemetryEvent F) (configs : List (LoadedConfig F))
      → (context : ResolvedDeviceContext F) (t : SensorType) (v : F) (s : State) (e : Effect F)
      → event.payload t ≡ some v
      → Memᴰ e (evaluate_reading lt w event configs context (t, v) s).1
      → ∥ Source event configs context (alert_in e) ∥₁
  unfolding evaluate_reading thresholds_in_use
  evaluate_reading-Source w event configs context t v s e read m =
      elim (Option-cases (find (applies t) configs)) [
        | inl n ↦
            let skipped : evaluate_reading lt w event configs context (t, v) s ≡ (s, []) =
              rw (evaluate_reading, n) refl in
            elim (subst (λ (r : State × List (Effect F)). Memᴰ e r.1) skipped m) [ ]
        | inr (c, f) ↦ elim (List-cases (in_force_for context c t)) [
          | inl k ↦
              let skipped : evaluate_reading lt w event configs context (t, v) s ≡ (s, []) =
                rw (evaluate_reading, f, k) refl in
              elim (subst (λ (r : State × List (Effect F)). Memᴰ e r.1) skipped m) [ ]
          | inr (r, rs, k) ↦
              let judged : evaluate_reading lt w event configs context (t, v) s
                  ≡ evaluate lt w event.device_id event.farm_id (judged_config c) v (some (r ∷ rs))
                      s =
                rw (evaluate_reading, f, k) refl in
              let sent = subst (λ (x : State × List (Effect F)). Memᴰ e x.1) judged m in
              let fits = applies-fields t c (find-test (applies t) configs c f) in
              ∥∥₁_elim
                (evaluate-Violates lt w event.device_id event.farm_id (judged_config c) v
                  (some (r ∷ rs)) s e sent)
                (hlevel)
                λ (u, k2, v2, same). ∣ record {
                  sensor_type = t;
                  value = v;
                  read = read;
                  config = c;
                  listed = find-mem (applies t) configs c f;
                  of_type = fits.0;
                  enabled = fits.1;
                  automatic = fits.2;
                  threshold = u;
                  in_force = subst (λ xs. Mem u xs) (sym k) k2;
                  violated = v2;
                  same =
                      subst
                        (λ (ty : SensorType).
                          alert_in e
                          ≡ alert_of event.device_id ty v u (alert_in e).direction
                              (alert_in e).threshold)
                        fits.0 same;
                } ∣₁
        ]
      ]

  AreRead : TelemetryEvent F → List (SensorType × F) → Type 0
  AreRead event = All (λ r. event.payload r.0 ≡ some r.1)

  readings_of-AreRead :
      (event : TelemetryEvent F) (ts : List SensorType)
      → AreRead event (readings_of event.payload ts)
  unfolding readings_of AreRead
  readings_of-AreRead event [] = tt
  readings_of-AreRead event (t ∷ ts) = elim (Option-cases (event.payload t)) [
    | inl n ↦ rw (n, readings_of) (readings_of-AreRead event ts)
    | inr (v, n) ↦ rw (n, readings_of) (n, readings_of-AreRead event ts)
  ]

  evaluate_readings-Source :
      (w : SensorType → World) (event : TelemetryEvent F) (configs : List (LoadedConfig F))
      → (context : ResolvedDeviceContext F) (rs : List (SensorType × F)) (s : State) (e : Effect F)
      → AreRead event rs
      → Memᴰ e (evaluate_readings lt w event configs context rs s).1
      → ∥ Source event configs context (alert_in e) ∥₁
  unfolding evaluate_readings AreRead
  evaluate_readings-Source w event configs context [] s e h m = elim m [ ]
  evaluate_readings-Source w event configs context ((t, v) ∷ rs) s e h m =
      let (s1, es) = evaluate_reading lt (w t) event configs context (t, v) s in
      let (s2, rest) = evaluate_readings lt w event configs context rs s1 in
      let first : Memᴰ e es → ∥ Source event configs context (alert_in e) ∥₁ =
        λ k. evaluate_reading-Source (w t) event configs context t v s e h.0 k in
      elim (mem-if e (throws (w t) es) s1 s2 es (es ++ rest) _ refl m) [
        | inl k ↦ first k
        | inr k ↦ elim (mem-append e es rest k) [
          | inl k ↦ first k
          | inr k ↦ evaluate_readings-Source w event configs context rs s1 e h.1 k
        ]
      ]

  -- Storing readings changes neither the configs nor what the context is resolved from.
  stored-configs :
      (now : Time) (d : Uuid) (st : Sensors F) (more : List (SensorData F))
      → ((get_configs_for_device now d (record st { sensor_data = more })).0
          ≡ (get_configs_for_device now d st).0)
        × ((get_configs_for_device now d (record st { sensor_data = more })).1.tables ≡ st.tables)
        × ((get_configs_for_device now d (record st { sensor_data = more })).1.contexts
            ≡ st.contexts)
  unfolding get_configs_for_device load_configs
  stored-configs now d st more = elim (Option-cases (st.config_cache d)) [
    | inl n ↦ rw (n, get_configs_for_device) (refl, refl, refl)
    | inr (c, n) ↦ elim (Bool-cases (ltb now (c.loaded_at + 60000))) [
      | inl u ↦ rw (n, get_configs_for_device, u) (refl, refl, refl)
      | inr u ↦ rw (n, get_configs_for_device, u) (refl, refl, refl)
    ]
  ]

  -- Whatever a telemetry message makes the server send or log is about a reading of the message, for
  -- which the device has a config that is enabled and automatic, and about a threshold in force for
  -- the device's sensor that the reading violates. The configs and the context are those that the
  -- caches or the tables give at the time.
  pub process_telemetry-Source :
      (now : Time) (w : SensorType → World) (event : TelemetryEvent F) (st : Sensors F)
      → (e : Effect F) → Memᴰ e (process_telemetry lt now w event st).1
      → ∥ Source event
          (get_configs_for_device now event.device_id st).0
          (get_device_context st.tables now event.device_id st.contexts).0
          (alert_in e) ∥₁
  unfolding process_telemetry
  process_telemetry-Source now w event st e m =
      elim (List-cases (readings_of event.payload payload_sensor_types)) [
        | inl n ↦
            let idle : process_telemetry lt now w event st ≡ (st, []) =
              rw (process_telemetry, n) refl in
            elim (subst (λ (r : Sensors F × List (Effect F)). Memᴰ e r.1) idle m) [ ]
        | inr (r, rs, n) ↦
            let d = event.device_id in
            let more = st.sensor_data ++ stored now d (r ∷ rs) in
            let same = stored-configs now d st more in
            let st2 = (get_configs_for_device now d (record st { sensor_data = more })).1 in
            let read = subst (AreRead event) n (readings_of-AreRead event payload_sensor_types) in
            let judged : (process_telemetry lt now w event st).1
                ≡ (evaluate_readings lt w event (get_configs_for_device now d st).0
                    (get_device_context st.tables now d st.contexts).0 (r ∷ rs) st2.alerting).1 =
              rw (process_telemetry, n, same.0, same.1, same.2) refl in
            evaluate_readings-Source w event _ _ (r ∷ rs) st2.alerting e read
              (subst (λ es. Memᴰ e es) judged m)
      ]
