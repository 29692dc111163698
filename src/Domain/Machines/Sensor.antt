-- ===== src/Domain/Machines/Sensor.antt =====
-- mas/domain/machines.py: `SensorReading` and `RealisticSensor`.
use manufacturing_mas.Prelude.{
  ℕ, ◌+◌, ◌-◌, ◌≤◌, ◌≡◌, ◌≢◌, String, Bool, true, false, List, [], ◌∷◌, arith, ltb, if◌then◌else◌,
  length, last_n, push_capped, length-push_capped,
}
use manufacturing_mas.Prelude.Int.{pos}
use manufacturing_mas.Float.{Float, IsOrdered, fmax, fmin}

pub data Status : Type 0 where
  normal warning critical : Status

pub record SensorReading (F : Type 0) : Type 0 where
  pub name : String
  pub value : F
  pub unit : String
  pub status : Status

pub record RealisticSensor (F : Type 0) : Type 0 where
  pub name : String
  pub baseline : F
  pub noise_std : F
  pub unit : String
  pub warn_threshold : F
  pub critical_threshold : F
  pub autocorrelation : F
  pub drift_per_cycle : F
  pub value : F
  pub drift : F
  pub warmup_factor : F
  pub history : List F
  pub ma_window : ℕ

module _ {F : Type 0} ⦃f : Float F⦄ where
  unfoldable pub new_sensor : String → F → F → String → F → F → F → F → RealisticSensor F
  new_sensor name baseline noise_std unit warn crit autocorrelation drift_per_cycle = record {
    name = name;
    baseline = baseline;
    noise_std = noise_std;
    unit = unit;
    warn_threshold = warn;
    critical_threshold = crit;
    autocorrelation = autocorrelation;
    drift_per_cycle = drift_per_cycle;
    value = baseline;
    drift = f.lit 0 1;
    warmup_factor = f.lit 10 1;
    history = [];
    ma_window = 10;
  }

  unfoldable pub classify : RealisticSensor F → F → Status
  classify s v =
      if f.le s.critical_threshold (f.abs v)
      then critical
      else if f.le s.warn_threshold (f.abs v)
      then warning
      else normal

  unfoldable pub read :
      (F → F) → RealisticSensor F → F → F → F → Bool → RealisticSensor F × SensorReading F
  unfolding classify push_capped
  read gauss s tool_wear_rate shift_factor ambient_temp is_warmup =
      let drift = f.add s.drift s.drift_per_cycle in
      let warmup =
        if is_warmup
        then fmax (f.lit 7 1) (f.sub s.warmup_factor (f.lit 5 2))
        else fmin (f.lit 10 1) (f.add s.warmup_factor (f.lit 2 2)) in
      let ambient_effect = f.mul (f.sub ambient_temp (f.lit 220 1)) (f.lit 1 2) in
      let wear_effect = f.mul tool_wear_rate (f.lit 3 1) in
      let shift_noise = f.mul (f.mul (f.sub shift_factor (f.lit 10 1)) s.noise_std) (f.lit 5 1) in
      let innovation = gauss (f.mul s.noise_std warmup) in
      let target =
        f.add
          (f.add (f.add (f.add (f.add s.baseline drift) ambient_effect) wear_effect) shift_noise)
          innovation in
      let value =
        f.add (f.mul s.autocorrelation s.value)
          (f.mul (f.sub (f.lit 1 0) s.autocorrelation) target) in
      (
        record s {
          drift = drift;
          warmup_factor = warmup;
          value = value;
          history = push_capped 100 100 s.history value;
        },
        record { name = s.name; value = f.round value 3; unit = s.unit; status = classify s value },
      )

  sum : F → List F → F
  sum acc [] = acc
  sum acc (x ∷ xs) = sum (f.add acc x) xs

  abbrev mean : List F → F
  mean xs = f.div (sum (f.lit 0 0) xs) (f.of_int (pos (length xs)))

  unfoldable pub ma : RealisticSensor F → F
  unfolding sum
  ma s = elim s.history [ [] ↦ s.baseline | x ∷ xs ↦ mean (last_n s.ma_window (x ∷ xs)) ]

  -- The products of the deviations from the mean position and the mean value, from position `i` on.
  numerator : F → F → ℕ → F → List F → F
  numerator x_mean y_mean i acc [] = acc
  numerator x_mean y_mean i acc (y ∷ ys) =
      numerator x_mean y_mean (i + 1)
        (f.add acc (f.mul (f.sub (f.of_int (pos i)) x_mean) (f.sub y y_mean))) ys

  denominator : F → ℕ → F → List F → F
  denominator x_mean i acc [] = acc
  denominator x_mean i acc (y ∷ ys) =
      denominator x_mean (i + 1)
        (f.add acc (f.mul (f.sub (f.of_int (pos i)) x_mean) (f.sub (f.of_int (pos i)) x_mean))) ys

  unfoldable pub slope : RealisticSensor F → F
  unfolding sum numerator denominator
  slope s =
      let recent = last_n 10 s.history in
      let n = length recent in
      let x_mean = f.div (f.of_int (pos (n - 1))) (f.lit 2 0) in
      let y_mean = mean recent in
      let num = numerator x_mean y_mean 0 (f.lit 0 0) recent in
      let den = denominator x_mean 0 (f.lit 0 0) recent in
      if ltb (length s.history) 5
      then f.lit 0 1
      else if f.lt (f.lit 0 0) den
      then f.div num den
      else f.lit 0 1

  deviations : F → List F → List F
  deviations m [] = []
  deviations m (x ∷ xs) = f.mul (f.sub x m) (f.sub x m) ∷ deviations m xs

  unfoldable pub std : RealisticSensor F → F
  unfolding sum deviations
  std s =
      let recent = last_n 20 s.history in
      if ltb (length s.history) 3
      then f.lit 0 1
      else f.sqrt (mean (deviations (mean recent) recent))

  unfoldable pub inject_shock : RealisticSensor F → F → RealisticSensor F
  inject_shock s magnitude = record s { drift = f.add s.drift magnitude }

  unfoldable pub recover : RealisticSensor F → F → RealisticSensor F
  recover s amount = record s { drift = fmax (f.lit 0 0) (f.sub s.drift amount) }

  unfoldable pub reset_drift : RealisticSensor F → RealisticSensor F
  reset_drift s = record s { drift = f.lit 0 1 }

  -- A sensor whose critical threshold is at most its warning threshold, as that of the nugget diameter,
  -- the hardness or the vision score, never reports WARNING: whatever it reads, a value large enough
  -- for the warning is already critical.
  pub inverted_thresholds :
      (laws : IsOrdered F) (gauss : F → F) (s : RealisticSensor F) (wear shift ambient : F)
      (is_warmup : Bool)
      → f.le s.critical_threshold s.warn_threshold ≡ true
      → let (s', reading) = read gauss s wear shift ambient is_warmup in
        (reading.status ≡ (if f.le s.critical_threshold (f.abs s'.value) then critical else normal))
        × (reading.status ≢ warning)
  unfolding read
  inverted_thresholds laws gauss s wear shift ambient is_warmup inverted =
      let v = (read gauss s wear shift ambient is_warmup).0.value in
      let trans = laws.le_trans s.critical_threshold s.warn_threshold (f.abs v) in
      (ground (arith, trans), λ e. ground (arith, e, trans))

  -- After a reading the history holds at most 100 values; the warm-up factor is at least 0.7 after a
  -- warm-up cycle and at most 1.0 after another.
  pub read_bounds :
      (laws : IsOrdered F) (gauss : F → F) (s : RealisticSensor F) (wear shift ambient : F)
      → let warm = (read gauss s wear shift ambient true).0 in
        let hot = (read gauss s wear shift ambient false).0 in
        (length warm.history ≤ 100)
        × (length hot.history ≤ 100)
        × (f.le (f.lit 7 1) warm.warmup_factor ≡ true)
        × (f.le hot.warmup_factor (f.lit 10 1) ≡ true)
  unfolding read
  read_bounds laws gauss s wear shift ambient = (
    length-push_capped 100 100 s.history _ (omega arith),
    length-push_capped 100 100 s.history _ (omega arith),
    ground (
      arith,
      laws.le_refl (f.lit 7 1),
      laws.lt-eq-not-le (f.lit 7 1) (f.sub s.warmup_factor (f.lit 5 2)),
      laws.le_total (f.lit 7 1) (f.sub s.warmup_factor (f.lit 5 2)),
    ),
    ground (
      arith,
      laws.le_refl (f.lit 10 1),
      laws.lt-eq-not-le (f.add s.warmup_factor (f.lit 2 2)) (f.lit 10 1),
      laws.le_total (f.lit 10 1) (f.add s.warmup_factor (f.lit 2 2)),
    ),
  )

  -- A recovered sensor has no negative drift.
  pub recover_lem :
      (laws : IsOrdered F) (s : RealisticSensor F) (amount : F)
      → f.le (f.lit 0 0) (recover s amount).drift ≡ true
  unfolding recover
  recover_lem laws s amount = ground (
    arith,
    laws.le_refl (f.lit 0 0),
    laws.lt-eq-not-le (f.lit 0 0) (f.sub s.drift amount),
    laws.le_total (f.lit 0 0) (f.sub s.drift amount),
  )
