-- ===== src/Sensors/Caches.antt =====
-- What a change of configs or thresholds leaves in the cache, for sensor/sensor.service.ts.
use qs_farm_be.Common.{
  ◌≡◌, refl, sym, ap, ◌∙◌, inl, inr, Bool, true, false, none, some, List, [], ◌∷◌, ◌++◌, map, arith,
  Memᴰ, Bool-cases, ◌==◌, if◌then◌else◌, keep,
}
use qs_farm_be.Domain.{Uuid, SensorType, ThresholdRow}
use qs_farm_be.Sensors.{
  Sensors, ConfigRow, LoadedConfig, ConfigsEntry, ThresholdEntry, load_configs, thresholds_of,
}
use qs_farm_be.Sensors.Configs.{
  ConfigDto, Answer, create_config, update_config, remove_config, create_threshold,
  update_threshold, remove_threshold,
}

module _ {A : Type 0} where
  pub keep-keep :
      (p q : A → Bool) (xs : List A)
      → ((x : A) → Memᴰ x xs → p x ≡ true → q x ≡ true)
      → keep p (keep q xs) ≡ keep p xs
  keep-keep p q [] h = refl
  keep-keep p q (x ∷ xs) h =
      let rest = keep-keep p q xs (λ y m. h y (Memᴰ.tail m)) in
      elim (Bool-cases (p x)) [
        | inl k ↦ rw (h x (Memᴰ.head refl) k, k) (ap (λ ys. x ∷ ys) rest)
        | inr k ↦ elim (Bool-cases (q x)) [
          | inl hit ↦ rw (hit, k) rest
          | inr miss ↦ rw (miss, k) rest
        ]
      ]

  pub keep-append_miss :
      (p : A → Bool) (xs : List A) (y : A) → p y ≡ false → keep p (xs ++ y ∷ []) ≡ keep p xs
  keep-append_miss p [] y h = rw h refl
  keep-append_miss p (x ∷ xs) y h =
      ap (λ ys. if p x then x ∷ ys else ys) (keep-append_miss p xs y h)

  pub keep-map_same :
      (p : A → Bool) (g : A → A) (xs : List A)
      → ((x : A) → Memᴰ x xs → p x ≡ true → g x ≡ x)
      → ((x : A) → Memᴰ x xs → p x ≡ false → p (g x) ≡ false)
      → keep p (map g xs) ≡ keep p xs
  keep-map_same p g [] h k = refl
  keep-map_same p g (x ∷ xs) h k =
      let rest = keep-map_same p g xs (λ y m. h y (Memᴰ.tail m)) (λ y m. k y (Memᴰ.tail m)) in
      elim (Bool-cases (p x)) [
        | inl hit ↦ rw (h x (Memᴰ.head refl) hit, hit) (ap (λ ys. x ∷ ys) rest)
        | inr miss ↦ rw (k x (Memᴰ.head refl) miss, miss) rest
      ]

  map-keep_same :
      {B : Type 0}
      → (f g : A → B) (p : A → Bool) (xs : List A) → ((x : A) → Memᴰ x xs → p x ≡ true → f x ≡ g x)
      → map f (keep p xs) ≡ map g (keep p xs)
  map-keep_same f g p [] h = refl
  map-keep_same f g p (x ∷ xs) h =
      let rest = map-keep_same f g p xs (λ y m. h y (Memᴰ.tail m)) in
      elim (Bool-cases (p x)) [
        | inl hit ↦ rw (hit, h x (Memᴰ.head refl) hit) (ap (λ ys. g x ∷ ys) rest)
        | inr miss ↦ rw miss rest
      ]

abbrev pub is_of_device : Uuid → ConfigRow → Bool
is_of_device d c = c.device_id == d

-- A change that an administrator may ask for.
pub data Edit (F : Type 0) : Type 0 where
  config_created : Uuid → Uuid → SensorType → ConfigDto → Edit F
  config_updated : Uuid → Uuid → ConfigDto → Edit F
  config_removed : Uuid → Uuid → Edit F
  threshold_created : Uuid → Uuid → ThresholdRow F → Edit F
  threshold_updated : Uuid → Uuid → (ThresholdRow F → ThresholdRow F) → Edit F
  threshold_removed : Uuid → Uuid → Edit F

module _ {F : Type 0} where
  unfoldable pub edit : Edit F → Sensors F → Answer F × Sensors F
  edit (config_created i d t dto) st = create_config i d t dto st
  edit (config_updated d i dto) st = update_config d i dto st
  edit (config_removed d i) st = remove_config d i st
  edit (threshold_created i c row) st = create_threshold i c row st
  edit (threshold_updated c i f) st = update_threshold c i f st
  edit (threshold_removed c i) st = remove_threshold c i st

  abbrev pub is_of_config : Uuid → ThresholdEntry F → Bool
  is_of_config i t = t.sensor_config_id == i

  abbrev loaded : Uuid → List ConfigRow → List (ThresholdEntry F) → List (LoadedConfig F)
  loaded d cs ts =
      map (λ (c : ConfigRow). record { config = c; thresholds = thresholds_of c.id ts })
        (keep (is_of_device d) cs)

  pub loaded_same :
      (d : Uuid) (cs cs' : List ConfigRow) (ts ts' : List (ThresholdEntry F))
      → keep (is_of_device d) cs' ≡ keep (is_of_device d) cs
      → ((c : ConfigRow)
          → Memᴰ c cs
          → is_of_device d c ≡ true
          → keep (is_of_config c.id) ts' ≡ keep (is_of_config c.id) ts)
      → loaded d cs' ts' ≡ loaded d cs ts
  loaded_same d cs cs' ts ts' h k =
      ap (map (λ (c : ConfigRow). record { config = c; thresholds = thresholds_of c.id ts' })) h
      ∙ map-keep_same
          (λ (c : ConfigRow). record { config = c; thresholds = thresholds_of c.id ts' })
          (λ (c : ConfigRow). record { config = c; thresholds = thresholds_of c.id ts })
          (is_of_device d) cs
          λ c m e.
            ap
              (λ (l : List (ThresholdEntry F)). record {
                config = c;
                thresholds = map (λ (t : ThresholdEntry F). t.row) l;
              })
              (k c m e)

  -- Every entry of the service's cache is what the tables hold for its device.
  abbrev pub IsCoherent : Sensors F → Type 0
  IsCoherent st =
      (d : Uuid) (e : ConfigsEntry F) → st.config_cache d ≡ some e → e.configs ≡ load_configs d st

  -- No two rows share an id.
  pub record HasOwnIds (st : Sensors F) : Type 0 where
    pub configs : (a b : ConfigRow) → Memᴰ a st.configs → Memᴰ b st.configs → a.id ≡ b.id → a ≡ b
    pub thresholds :
        (a b : ThresholdEntry F) → Memᴰ a st.thresholds → Memᴰ b st.thresholds → a.id ≡ b.id → a ≡ b

  pub after_drop :
      (st st' : Sensors F) (d : Uuid)
      → IsCoherent st
      → ((i : Uuid) → st'.config_cache i ≡ (if i == d then none else st.config_cache i))
      → ((i : Uuid) → (i == d) ≡ false → load_configs i st' ≡ load_configs i st)
      → IsCoherent st'
  after_drop st st' d c h k i e f = elim (Bool-cases (i == d)) [
    | inl hit ↦ ground (arith, h i, hit, f)
    | inr miss ↦
        let kept : st.config_cache i ≡ some e = ground (arith, h i, miss, f) in
        c i e kept ∙ sym (k i miss)
  ]

  pub after_save :
      (st st' : Sensors F)
      → IsCoherent st
      → ((i : Uuid) → st'.config_cache i ≡ st.config_cache i)
      → ((i : Uuid) → load_configs i st' ≡ load_configs i st)
      → IsCoherent st'
  after_save st st' c h k i e f = c i e (sym (h i) ∙ f) ∙ sym (k i)

  -- A config of another device has another id.
  pub other_id :
      (st : Sensors F) (own : HasOwnIds st) (c x : ConfigRow) (i : Uuid)
      → Memᴰ c st.configs
      → Memᴰ x st.configs
      → (i == c.device_id) ≡ false
      → is_of_device i x ≡ true
      → (x.id == c.id) ≡ false
  other_id st own c x i mc mx n e = elim (Bool-cases (x.id == c.id)) [
    | inr miss ↦ miss
    | inl hit ↦
        let same = own.configs x c mx mc (ground (arith, hit)) in
        let device = ap (λ (y : ConfigRow). y.device_id) same in ground (arith, device, n, e)
  ]
