-- ===== src/Agents/Roles/Equipment.antt =====
-- mas/agents/equipment_agent.py: the state, the observations and `sense`. The lines of the reasoning
-- log and the entries that only the dashboard reads are left out. The argument `upper` stands for
-- `strip` and `upper`.
pub mod Decide
pub mod Proposal
pub mod Dropped
use Prim.Native.String.{◌++◌ as append}
use manufacturing_mas.Prelude.{
  ℕ, String, Bool, true, false, Option, none, some, List, [], ◌∷◌, ◌++◌, if◌then◌else◌, str_eq,
}
use manufacturing_mas.Prelude.Int.{pos}
use manufacturing_mas.Prelude.Dict.{Dict, lookup, insert}
use manufacturing_mas.Float.{Float, fmax}
use manufacturing_mas.Protocol.Value.{Fields}
use manufacturing_mas.Intelligence.Predictive.{
  trim_history, compute_raw_anomaly, scale_anomaly_for_type, estimate_rul_hours,
}
use manufacturing_mas.Agents.Roles.Base.{BaseAgent, new_agent}

-- What the agent reads of a station in the snapshot.
pub record SensorView (F : Type 0) : Type 0 where
  pub value : F
  pub ma : F
  pub slope : F
  pub std : F

pub record StationView (F : Type 0) : Type 0 where
  pub type : String
  pub sensors : Dict (SensorView F)
  pub tool_life_pct : F
  pub tool_region : String
  pub mtbf : Option F

pub record MaintenanceAction : Type 0 where
  pub station : String
  pub action : String
  pub reason : String

pub record EquipmentAgent (F : Type 0) : Type 0 where
  pub base : BaseAgent (Fields F)
  pub trend_history : Dict (List F)
  pub rul_estimates : Dict F
  pub maintenance_queue : List MaintenanceAction
  pub anomaly_scores : Dict F

pub record Alarm (F : Type 0) : Type 0 where
  pub station : String
  pub sensor : String
  pub value : F
  pub anomaly : F
  pub is_rising : Bool

pub record TrendAlert (F : Type 0) : Type 0 where
  pub station : String
  pub sensor : String
  pub slope : F
  pub is_worse : Bool

pub record ToolWarning (F : Type 0) : Type 0 where
  pub station : String
  pub tool_life_pct : F
  pub region : String
  pub is_urgent : Bool

pub record StationHealth (F : Type 0) : Type 0 where
  pub score : F
  pub rul_hours : F
  pub tool_life_pct : F
  pub station_type : String
  pub max_anomaly : F
  pub worst_sensor : String

pub record EquipmentObs (F : Type 0) : Type 0 where
  pub station_health : Dict (StationHealth F)
  pub alarms : List (Alarm F)
  pub tool_warnings : List (ToolWarning F)
  pub trend_alerts : List (TrendAlert F)

-- The variables of the loop over the sensors of a station.
pub record Scan (F : Type 0) : Type 0 where
  pub history : Dict (List F)
  pub scores : Dict F
  pub alarms : List (Alarm F)
  pub trend_alerts : List (TrendAlert F)
  pub health_score : F
  pub max_an : F
  pub worst_sn : String

module _ {F : Type 0} where
  unfoldable pub new_equipment_agent : EquipmentAgent F
  unfolding new_agent
  new_equipment_agent = record {
    base = new_agent "EA";
    trend_history = [];
    rul_estimates = [];
    maintenance_queue = [];
    anomaly_scores = [];
  }

module _ {F : Type 0} ⦃f : Float F⦄ (upper : String → String) where
  unfoldable pub scan_sensor : String → String → String → SensorView F → Scan F → Scan F
  unfolding trim_history compute_raw_anomaly scale_anomaly_for_type lookup insert
  scan_sensor sid stype sname s scan =
      let key = append sid (append "." sname) in
      let history = trim_history 200 key s.value scan.history in
      let known : List F = elim (lookup key history) [ none ↦ [] | some xs ↦ xs ] in
      let raw = compute_raw_anomaly s.value s.ma s.std known in
      let anomaly = scale_anomaly_for_type upper stype sname raw in
      let alarm : Alarm F = record {
        station = sid;
        sensor = sname;
        value = s.value;
        anomaly = f.round anomaly 2;
        is_rising = f.lt (f.of_int (pos 0)) s.slope;
      } in
      let trend : TrendAlert F = record {
        station = sid;
        sensor = sname;
        slope = f.round s.slope 4;
        is_worse = f.lt (f.of_int (pos 0)) s.slope;
      } in
      let alarmed = f.lt (f.lit 7 1) anomaly in
      record {
        history = history;
        scores = insert key anomaly scan.scores;
        alarms = if alarmed then scan.alarms ++ alarm ∷ [] else scan.alarms;
        trend_alerts =
            if f.lt (f.lit 5 2) (f.abs s.slope)
            then scan.trend_alerts ++ trend ∷ []
            else scan.trend_alerts;
        health_score =
            if alarmed
            then f.sub scan.health_score (f.mul anomaly (f.of_int (pos 30)))
            else scan.health_score;
        max_an = if f.lt scan.max_an anomaly then anomaly else scan.max_an;
        worst_sn = if f.lt scan.max_an anomaly then sname else scan.worst_sn;
      }

  unfoldable pub scan_sensors : String → String → Dict (SensorView F) → Scan F → Scan F
  unfolding scan_sensor
  scan_sensors sid stype [] scan = scan
  scan_sensors sid stype ((sname, s) ∷ rest) scan =
      scan_sensors sid stype rest (scan_sensor sid stype sname s scan)

  -- The turn of a station in the loop over the stations.
  unfoldable pub sense_station :
      String → StationView F → EquipmentAgent F × EquipmentObs F → EquipmentAgent F × EquipmentObs F
  unfolding scan_sensors estimate_rul_hours insert
  sense_station sid s (a, obs) =
      let stype = upper (if str_eq s.type "" then "PRESS" else s.type) in
      let scan = scan_sensors sid stype s.sensors (record {
        history = a.trend_history;
        scores = a.anomaly_scores;
        alarms = obs.alarms;
        trend_alerts = obs.trend_alerts;
        health_score = f.lit 1000 1;
        max_an = f.lit 0 1;
        worst_sn = "";
      }) in
      let worn = f.lt s.tool_life_pct (f.of_int (pos 15)) in
      let warning : ToolWarning F = record {
        station = sid;
        tool_life_pct = s.tool_life_pct;
        region = s.tool_region;
        is_urgent = f.lt s.tool_life_pct (f.of_int (pos 5));
      } in
      let health =
        if worn
        then f.sub scan.health_score
            (f.mul (f.sub (f.of_int (pos 15)) s.tool_life_pct) (f.of_int (pos 3)))
        else scan.health_score in
      let rul = estimate_rul_hours upper health s.mtbf stype in
      let report : StationHealth F = record {
        score = f.round (fmax (f.of_int (pos 0)) health) 1;
        rul_hours = f.round rul 1;
        tool_life_pct = s.tool_life_pct;
        station_type = stype;
        max_anomaly = f.round scan.max_an 3;
        worst_sensor = if str_eq scan.worst_sn "" then "-" else scan.worst_sn;
      } in
      (
        record a {
          trend_history = scan.history;
          anomaly_scores = scan.scores;
          rul_estimates = insert sid rul a.rul_estimates;
        },
        record {
          station_health = insert sid report obs.station_health;
          alarms = scan.alarms;
          tool_warnings = if worn then obs.tool_warnings ++ warning ∷ [] else obs.tool_warnings;
          trend_alerts = scan.trend_alerts;
        },
      )

  sense_all :
      Dict (StationView F) → EquipmentAgent F × EquipmentObs F → EquipmentAgent F × EquipmentObs F
  unfolding sense_station
  sense_all [] st = st
  sense_all ((sid, s) ∷ rest) st = sense_all rest (sense_station sid s st)

  unfoldable pub sense : EquipmentAgent F → Dict (StationView F) → EquipmentAgent F × EquipmentObs F
  unfolding sense_all
  sense a stations =
      sense_all stations
        (a, record { station_health = []; alarms = []; tool_warnings = []; trend_alerts = [] })
