-- ===== src/Sensors/Coherence.antt =====
-- The cache of configs stays true to the tables, in sensor/sensor.service.ts.
use qs_farm_be.Common.{
  ◌≡◌, refl, ap, inl, inr, true, false, not, some, List, [], ◌∷◌, ◌++◌, arith, Memᴰ, Option-cases,
  Bool-cases, ◌==◌, ◌&&◌, ltb, ◌+◌, if◌then◌else◌, find-mem, find-test, find-none, keep,
}
use qs_farm_be.Domain.{Uuid, Time, SensorType, ThresholdRow}
use qs_farm_be.Sensors.{
  Sensors, ConfigRow, ThresholdEntry, load_configs, get_configs_for_device, drop_configs, drop_both,
}
use qs_farm_be.Sensors.Configs.{
  ConfigDto, create_config, update_config, remove_config, create_threshold, update_threshold,
  remove_threshold, config_of_device, config_with, threshold_of_config, drop_of_config,
  assign_config, save_config, save_threshold, new_config,
}
use qs_farm_be.Sensors.Caches.{
  is_of_device, is_of_config, IsCoherent, HasOwnIds, keep-keep, keep-append_miss, keep-map_same,
  loaded_same, after_drop, after_save, other_id, Edit, edit, config_created, config_updated,
  config_removed, threshold_created, threshold_updated, threshold_removed,
}

module _ {F : Type 0} (st : Sensors F) (own : HasOwnIds st) (c : IsCoherent st) where
  create_config-IsCoherent :
      (n d : Uuid) (t : SensorType) (dto : ConfigDto) → IsCoherent (create_config n d t dto st).1
  unfolding create_config load_configs
  create_config-IsCoherent n d t dto =
      after_drop st (create_config n d t dto st).1 d c (λ i. refl)
        λ i miss.
          let other : (d == i) ≡ false = ground (arith, miss) in
          loaded_same i st.configs _ st.thresholds st.thresholds
            (keep-append_miss (is_of_device i) st.configs (new_config n d t dto) other)
            (λ x m e. refl)

  -- What `update_config` and `remove_config` find.
  record Found (d : Uuid) (x : ConfigRow) : Type 0 where
    listed : Memᴰ x st.configs
    device : x.device_id ≡ d

  config_of_device-Found :
      (d i : Uuid) (x : ConfigRow) → config_of_device d i st ≡ some x → Found d x
  config_of_device-Found d i x h =
      let p = λ (y : ConfigRow). y.id == i && y.device_id == d in
      let test = find-test p st.configs x h in
      record { listed = find-mem p st.configs x h; device = ground (arith, test) }

  saved_row :
      (x c : ConfigRow) (i : Uuid)
      → (i == c.device_id) ≡ false
      → is_of_device i x ≡ false
      → is_of_device i (if x.id == c.id then c else x) ≡ false
  saved_row x c i n e = elim (Bool-cases (x.id == c.id)) [
    | inl hit ↦ rw hit (ground (arith, n))
    | inr miss ↦ rw miss e
  ]

  update_config-IsCoherent :
      (d i : Uuid) (dto : ConfigDto) → IsCoherent (update_config d i dto st).1
  unfolding update_config load_configs
  update_config-IsCoherent d i dto = elim (Option-cases (config_of_device d i st)) [
    | inl n ↦ rw (n, update_config) c
    | inr (x, n) ↦
        let f = config_of_device-Found d i x n in
        let x' = assign_config dto x in
        rw (n, update_config)
          (after_drop st (drop_configs d (record st { configs = save_config x' st.configs })) d c
            (λ j. refl)
            λ j miss.
              let other : (j == x.device_id) ≡ false = ground (arith, miss, f.device) in
              loaded_same j st.configs _ st.thresholds st.thresholds
                (keep-map_same (is_of_device j) (λ (y : ConfigRow). if y.id == x'.id then x' else y)
                  st.configs (λ y m e. rw (other_id st own x y j f.listed m other e) refl)
                  (λ y m e. saved_row y x' j other e))
                (λ y m e. refl))
  ]

  remove_config-IsCoherent : (d i : Uuid) → IsCoherent (remove_config d i st).1
  unfolding remove_config load_configs
  remove_config-IsCoherent d i = elim (Option-cases (config_of_device d i st)) [
    | inl n ↦ rw (n, remove_config) c
    | inr (x, n) ↦
        let f = config_of_device-Found d i x n in
        rw (n, remove_config)
          (after_drop st
            (drop_configs d (record st {
              configs = keep (λ (y : ConfigRow). not (y.id == x.id)) st.configs;
              thresholds =
                  keep (λ (t : ThresholdEntry F). not (t.sensor_config_id == x.id)) st.thresholds;
            }))
            d c (λ j. refl)
            λ j miss.
              let other : (j == x.device_id) ≡ false = ground (arith, miss, f.device) in
              loaded_same j st.configs _ st.thresholds _
                (keep-keep (is_of_device j) (λ (y : ConfigRow). not (y.id == x.id)) st.configs
                  (λ y m e. let a = other_id st own x y j f.listed m other e in ground (arith, a)))
                (λ y m e.
                  let a = other_id st own x y j f.listed m other e in
                  keep-keep (is_of_config y.id)
                    (λ (t : ThresholdEntry F). not (t.sensor_config_id == x.id)) st.thresholds
                    (λ t k g. ground (arith, a, g))))
  ]

  create_threshold-IsCoherent :
      (n i : Uuid) (row : ThresholdRow F) → IsCoherent (create_threshold n i row st).1
  unfolding create_threshold load_configs
  create_threshold-IsCoherent n i row = elim (Option-cases (config_with i st)) [
    | inl k ↦ rw (k, create_threshold) c
    | inr (x, k) ↦
        let p = λ (y : ConfigRow). y.id == i in
        let test = find-test p st.configs x k in
        let listed = find-mem p st.configs x k in
        let t : ThresholdEntry F = record { id = n; sensor_config_id = i; row = row } in
        rw (k, create_threshold)
          (after_drop st
            (drop_both x.device_id (record st { thresholds = st.thresholds ++ t ∷ [] })) x.device_id
            c (λ j. refl)
            λ j miss. loaded_same j st.configs st.configs st.thresholds _ refl (λ y m e.
              let a = other_id st own x y j listed m miss e in
              keep-append_miss (is_of_config y.id) st.thresholds t (ground (arith, a, test))))
  ]

  -- After a change of the thresholds of one config, and what the operations do last.
  drop_of_config-IsCoherent :
      (i : Uuid) (ts : List (ThresholdEntry F))
      → ((j : Uuid)
          → (j == i) ≡ false
          → keep (is_of_config j) ts ≡ keep (is_of_config j) st.thresholds)
      → IsCoherent (drop_of_config i (record st { thresholds = ts }))
  unfolding drop_of_config load_configs
  drop_of_config-IsCoherent i ts h = elim (Option-cases (config_with i st)) [
    | inl k ↦
        rw (k, drop_of_config)
          (after_save st (record st { thresholds = ts }) c (λ j. refl)
            λ j.
              loaded_same j st.configs st.configs st.thresholds ts refl
                (λ y m e. h y.id (find-none (λ (z : ConfigRow). z.id == i) st.configs y k m)))
    | inr (x, k) ↦
        let p = λ (y : ConfigRow). y.id == i in
        let test = find-test p st.configs x k in
        let listed = find-mem p st.configs x k in
        rw (k, drop_of_config)
          (after_drop st (drop_both x.device_id (record st { thresholds = ts })) x.device_id c
            (λ j. refl)
            λ j miss. loaded_same j st.configs st.configs st.thresholds ts refl (λ y m e.
              let a = other_id st own x y j listed m miss e in h y.id (ground (arith, a, test))))
  ]

  record FoundThreshold (i : Uuid) (t : ThresholdEntry F) : Type 0 where
    listed : Memᴰ t st.thresholds
    config : t.sensor_config_id ≡ i

  threshold_of_config-FoundThreshold :
      (i k : Uuid) (t : ThresholdEntry F) → threshold_of_config i k st ≡ some t → FoundThreshold i t
  threshold_of_config-FoundThreshold i k t h =
      let p = λ (y : ThresholdEntry F). y.id == k && y.sensor_config_id == i in
      let test = find-test p st.thresholds t h in
      record { listed = find-mem p st.thresholds t h; config = ground (arith, test) }

  -- A threshold of another config has another id.
  other_threshold :
      (i j : Uuid) (t x : ThresholdEntry F)
      → FoundThreshold i t
      → Memᴰ x st.thresholds
      → (j == i) ≡ false
      → is_of_config j x ≡ true
      → (x.id == t.id) ≡ false
  other_threshold i j t x f m n e = elim (Bool-cases (x.id == t.id)) [
    | inr miss ↦ miss
    | inl hit ↦
        let same = own.thresholds x t m f.listed (ground (arith, hit)) in
        let config = ap (λ (y : ThresholdEntry F). y.sensor_config_id) same in
        let found = f.config in ground (arith, config, found, n, e)
  ]

  saved_threshold :
      (x t : ThresholdEntry F) (i j : Uuid)
      → t.sensor_config_id ≡ i
      → (j == i) ≡ false
      → is_of_config j x ≡ false
      → is_of_config j (if x.id == t.id then t else x) ≡ false
  saved_threshold x t i j f n e = elim (Bool-cases (x.id == t.id)) [
    | inl hit ↦ rw hit (ground (arith, f, n))
    | inr miss ↦ rw miss e
  ]

  update_threshold-IsCoherent :
      (i k : Uuid) (assign : ThresholdRow F → ThresholdRow F)
      → IsCoherent (update_threshold i k assign st).1
  unfolding update_threshold
  update_threshold-IsCoherent i k assign = elim (Option-cases (threshold_of_config i k st)) [
    | inl n ↦ rw (n, update_threshold) c
    | inr (t, n) ↦
        let f = threshold_of_config-FoundThreshold i k t n in
        let t' : ThresholdEntry F = record t { row = assign t.row } in
        rw (n, update_threshold)
          (drop_of_config-IsCoherent i (save_threshold t' st.thresholds) λ j miss.
            keep-map_same (is_of_config j)
              (λ (y : ThresholdEntry F). if y.id == t'.id then t' else y) st.thresholds
              (λ y m e. rw (other_threshold i j t y f m miss e) refl)
              (λ y m e. saved_threshold y t' i j f.config miss e))
  ]

  remove_threshold-IsCoherent : (i k : Uuid) → IsCoherent (remove_threshold i k st).1
  unfolding remove_threshold
  remove_threshold-IsCoherent i k = elim (Option-cases (threshold_of_config i k st)) [
    | inl n ↦ rw (n, remove_threshold) c
    | inr (t, n) ↦
        let f = threshold_of_config-FoundThreshold i k t n in
        rw (n, remove_threshold)
          (drop_of_config-IsCoherent i
            (keep (λ (y : ThresholdEntry F). not (y.id == t.id)) st.thresholds)
            λ j miss.
              keep-keep (is_of_config j) (λ (y : ThresholdEntry F). not (y.id == t.id))
                st.thresholds
                (λ y m e. let a = other_threshold i j t y f m miss e in ground (arith, a)))
  ]

module _ {F : Type 0} where
  edit-IsCoherent :
      (e : Edit F) (st : Sensors F) → HasOwnIds st → IsCoherent st → IsCoherent (edit e st).1
  unfolding edit
  edit-IsCoherent (config_created n d t dto) st own c = create_config-IsCoherent st own c n d t dto
  edit-IsCoherent (config_updated d i dto) st own c = update_config-IsCoherent st own c d i dto
  edit-IsCoherent (config_removed d i) st own c = remove_config-IsCoherent st own c d i
  edit-IsCoherent (threshold_created n i row) st own c =
      create_threshold-IsCoherent st own c n i row
  edit-IsCoherent (threshold_updated i k assign) st own c =
      update_threshold-IsCoherent st own c i k assign
  edit-IsCoherent (threshold_removed i k) st own c = remove_threshold-IsCoherent st own c i k

  asked-IsCoherent :
      (st : Sensors F) (now : Time) (d : Uuid)
      → IsCoherent st
      → (get_configs_for_device now d st).0 ≡ load_configs d st
  unfolding get_configs_for_device
  asked-IsCoherent st now d c = elim (Option-cases (st.config_cache d)) [
    | inl n ↦ rw (n, get_configs_for_device) refl
    | inr (e, n) ↦ elim (Bool-cases (ltb now (e.loaded_at + 60000))) [
      | inl fresh ↦ rw (n, get_configs_for_device, fresh) (c d e n)
      | inr stale ↦ rw (n, get_configs_for_device, stale) refl
    ]
  ]

  -- If every entry of the service's cache is what the tables hold for its device, the configs with
  -- their thresholds, then this stays so over a change of a config or of a threshold, refused or
  -- not; and `getConfigsForDevice` then answers for every device, at any time, what the tables hold
  -- after the change. No two configs and no two thresholds share an id.
  pub edit-get_configs_for_device :
      (e : Edit F) (st : Sensors F)
      → HasOwnIds st
      → IsCoherent st
      → IsCoherent (edit e st).1
        × ((now : Time) (d : Uuid)
            → (get_configs_for_device now d (edit e st).1).0 ≡ load_configs d (edit e st).1)
  edit-get_configs_for_device e st own c =
      let after = edit-IsCoherent e st own c in
      (after, λ now d. asked-IsCoherent (edit e st).1 now d after)
