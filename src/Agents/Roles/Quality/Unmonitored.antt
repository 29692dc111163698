-- ===== src/Agents/Roles/Quality/Unmonitored.antt =====
-- mas/agents/quality_agent.py on the stations of mas/domain/machines.py: the limits are filed under the
-- sensors' Korean names, and the snapshot under their keys.
use Prim.Native.String.{◌++◌ as append}
use manufacturing_mas.Prelude.{
  length, ◌≡◌, refl, ◌∙◌, ap, String, Bool, false, ◌||◌, some, List, [], ◌∷◌, arith,
}
use manufacturing_mas.Prelude.Dict.{Dict, lookup}
use manufacturing_mas.Float.{Float}
use manufacturing_mas.Domain.Machines.Sensor.{RealisticSensor}
use manufacturing_mas.Domain.Machines.WorkCenter.{WorkCenter, oee}
use manufacturing_mas.Domain.Machines.Line.{create_production_line}
use manufacturing_mas.Agents.Roles.Quality.{QualityAgent, QualityView, QualityObs, spec_limits}
use manufacturing_mas.Agents.Roles.Quality.Sense.{
  has_limits, sense_sensor, sense_sensors, sense_stations, summarize_spc, trend_of, sense, no_obs,
  add_risk, add_yield,
}

abbrev pub names : {V : Type 0} → Dict V → List String
names [] = []
names ((name, v) ∷ rest) = name ∷ names rest

module _ {F : Type 0} where
  abbrev sensor_values : Dict (RealisticSensor F) → Dict F
  sensor_values [] = []
  sensor_values ((name, s) ∷ rest) = (name, s.value) ∷ sensor_values rest

  abbrev pub station_keys : Dict (QualityView F) → Dict (List String)
  station_keys [] = []
  station_keys ((sid, s) ∷ rest) = (sid, names s.values) ∷ station_keys rest

  abbrev limited_sensor : Dict (F × F) → String → List String → Bool
  limited_sensor limits sid [] = false
  limited_sensor limits sid (n ∷ rest) =
      has_limits (append sid (append "." n)) limits || limited_sensor limits sid rest

  -- Some sensor has limits.
  abbrev limited : Dict (F × F) → Dict (List String) → Bool
  limited limits [] = false
  limited limits ((sid, ns) ∷ rest) = limited_sensor limits sid ns || limited limits rest

module _ {F : Type 0} ⦃f : Float F⦄ where
  -- The stations as the snapshot shows them.
  unfoldable pub quality_views : List (WorkCenter F) → Dict (QualityView F)
  unfolding oee
  quality_views [] = []
  quality_views (w ∷ rest) =
      (
        w.station_id,
        record { name = w.name; quality = (oee w).quality; values = sensor_values w.sensors },
      )
      ∷ quality_views rest

  abbrev Unchanged : QualityAgent F × QualityObs F → QualityAgent F × QualityObs F → Type 0
  Unchanged (a, obs) (b, seen) =
      (b.cpk_history ≡ a.cpk_history) × (seen.cpk_status ≡ obs.cpk_status)

  sense_sensor_lem :
      (sid n : String) (v : F) (a : QualityAgent F) (obs : QualityObs F)
      → has_limits (append sid (append "." n)) (spec_limits {F = F}) ≡ false
      → Unchanged (a, obs) (sense_sensor sid n v (a, obs))
  unfolding sense_sensor
  sense_sensor_lem sid n v a obs free = rw (free, sense_sensor) (refl, refl)

  sense_sensors_lem :
      (sid : String) (values : Dict F) (a : QualityAgent F) (obs : QualityObs F)
      → limited_sensor (spec_limits {F = F}) sid (names values) ≡ false
      → Unchanged (a, obs) (sense_sensors sid values (a, obs))
  unfolding sense_sensors sense_sensor
  sense_sensors_lem sid [] a obs h = (refl, refl)
  sense_sensors_lem sid ((n, v) ∷ rest) a obs h =
      let free : has_limits (append sid (append "." n)) (spec_limits {F = F}) ≡ false =
        ground (arith, h) in
      let others : limited_sensor (spec_limits {F = F}) sid (names rest) ≡ false =
        ground (arith, h) in
      let (same, none) = sense_sensor_lem sid n v a obs free in
      let (b, seen) = sense_sensor sid n v (a, obs) in
      let (later, nothing) = sense_sensors_lem sid rest b seen others in
      (later ∙ same, nothing ∙ none)

  sense_stations_lem :
      (stations : Dict (QualityView F)) (a : QualityAgent F) (obs : QualityObs F)
      → limited (spec_limits {F = F}) (station_keys stations) ≡ false
      → Unchanged (a, obs) (sense_stations stations (a, obs))
  unfolding sense_stations
  sense_stations_lem [] a obs h = (refl, refl)
  sense_stations_lem ((sid, s) ∷ rest) a obs h =
      let first : limited_sensor (spec_limits {F = F}) sid (names s.values) ≡ false =
        ground (arith, h) in
      let others : limited (spec_limits {F = F}) (station_keys rest) ≡ false = ground (arith, h) in
      let started = add_yield sid s obs in
      let (same, none) = sense_sensors_lem sid s.values a started first in
      let (b, seen) = sense_sensors sid s.values (a, started) in
      let (later, nothing) = sense_stations_lem rest b (add_risk sid s seen) others in
      (later ∙ same, nothing ∙ none)

module _ (F : Type 0) ⦃f : Float F⦄ where
  line_unlimited :
      limited (spec_limits {F = F}) (station_keys (quality_views (create_production_line {F = F})))
      ≡ false
  unfolding quality_views create_production_line spec_limits has_limits lookup
  line_unlimited = refl

module _ {F : Type 0} ⦃f : Float F⦄ where
  -- For every state of a line with the stations and the sensors of the production line, whatever the
  -- values, sense returns, finds no sensor with limits and so computes no capability: the status of
  -- the capabilities is empty, and their history stays as it was.
  pub sense-create_production_line :
      (a : QualityAgent F) (line : List (WorkCenter F))
      → station_keys (quality_views line)
        ≡ station_keys (quality_views (create_production_line {F = F}))
      → (b : QualityAgent F) × (obs : QualityObs F) × (sense a (quality_views line) ≡ some (b, obs))
        × (obs.cpk_status ≡ [])
        × (b.cpk_history ≡ a.cpk_history)
  unfolding sense summarize_spc
  sense-create_production_line a line same =
      let free : limited (spec_limits {F = F}) (station_keys (quality_views line)) ≡ false =
        ap (limited (spec_limits {F = F})) same ∙ line_unlimited F in
      let (b, obs) = sense_stations (quality_views line) (a, no_obs) in
      let (kept, nothing) = sense_stations_lem (quality_views line) a no_obs free in
      (
        b,
        record obs { defect_trend = trend_of (length obs.quality_risk_stations) },
        rw nothing refl,
        nothing,
        kept,
      )
