-- ===== src/Domain/Machines/WorkCenter.antt =====
-- mas/domain/machines.py: `WorkCenter`. Sensors are a dictionary in insertion order.
use manufacturing_mas.Prelude.{
  ℕ, suc, ◌+◌, String, Bool, true, false, List, [], ◌∷◌, ◌==◌, ltb, str_eq, if◌then◌else◌,
}
use manufacturing_mas.Prelude.Int.{ℤ, pos, max_ℤ, min_ℤ}
use manufacturing_mas.Float.{Float, fmin}
use manufacturing_mas.Domain.Machines.Tool.{ToolWear, advance, reset}
use manufacturing_mas.Domain.Machines.Sensor.{RealisticSensor, SensorReading, read}

pub data MachineState : Type 0 where
  running idle setup breakdown maintenance warmup : MachineState

pub record WorkCenter (F : Type 0) : Type 0 where
  pub station_id : String
  pub name : String
  pub station_type : String
  pub cycle_time_sec : F
  pub design_cycle_time : F
  pub sensors : List (String × RealisticSensor F)
  pub tool : ToolWear F
  pub state : MachineState
  pub total_cycles : ℕ
  pub good_count : ℕ
  pub defect_count : ℕ
  pub planned_time_sec : F
  pub run_time_sec : F
  pub downtime_sec : F
  pub setup_time_sec : F
  pub failure_count : ℕ
  pub total_repair_sec : F
  pub last_failure_cycle : ℕ
  pub uptime_since_repair : ℕ
  pub power_kw : F
  pub energy_kwh : F
  pub speed_pct : ℤ

-- The four ratios of `oee`.
pub record Oee (F : Type 0) : Type 0 where
  pub availability : F
  pub performance : F
  pub quality : F
  pub oee : F

abbrev pub Readings : Type 0 → Type 0
Readings F = List (String × SensorReading F)

-- The states in which `execute_cycle` does nothing.
unfoldable pub is_stopped : MachineState → Bool
is_stopped breakdown = true
is_stopped maintenance = true
is_stopped setup = true
is_stopped _ = false

abbrev is_warmup : MachineState → Bool
is_warmup warmup = true
is_warmup _ = false

module _ {F : Type 0} ⦃f : Float F⦄ where
  unfoldable pub new_work_center :
      String → String → String → F → List (String × RealisticSensor F) → ToolWear F → WorkCenter F
  new_work_center station_id name station_type cycle_time sensors tool = record {
    station_id = station_id;
    name = name;
    station_type = station_type;
    cycle_time_sec = cycle_time;
    design_cycle_time = cycle_time;
    sensors = sensors;
    tool = tool;
    state = idle;
    total_cycles = 0;
    good_count = 0;
    defect_count = 0;
    planned_time_sec = f.lit 0 1;
    run_time_sec = f.lit 0 1;
    downtime_sec = f.lit 0 1;
    setup_time_sec = f.lit 0 1;
    failure_count = 0;
    total_repair_sec = f.lit 0 1;
    last_failure_cycle = 0;
    uptime_since_repair = 0;
    power_kw = f.lit 0 1;
    energy_kwh = f.lit 0 1;
    speed_pct = pos 100;
  }

  -- The loop over the sensors: draw `i` is that of the sensor at place `i`.
  unfoldable pub read_all :
      (ℕ → F → F)
      → ℕ
      → List (String × RealisticSensor F)
      → F
      → F
      → F
      → Bool
      → List (String × RealisticSensor F) × Readings F
  unfolding read
  read_all gauss i [] wear shift ambient warm = ([], [])
  read_all gauss i ((name, sensor) ∷ rest) wear shift ambient warm =
      let (sensor', reading) = read (gauss i) sensor wear shift ambient warm in
      let (sensors', readings) = read_all gauss (suc i) rest wear shift ambient warm in
      ((name, sensor') ∷ sensors', (name, reading) ∷ readings)

  unfoldable pub base_power : String → F
  base_power station_type =
      if str_eq station_type "PRESS"
      then f.lit 45 0
      else if str_eq station_type "WELD"
      then f.lit 35 0
      else if str_eq station_type "HEAT"
      then f.lit 80 0
      else if str_eq station_type "CNC"
      then f.lit 25 0
      else if str_eq station_type "ASSY"
      then f.lit 12 0
      else f.lit 20 0

  unfoldable pub calc_power : (F → F) → WorkCenter F → F → F
  unfolding base_power
  calc_power gauss w wear_rate =
      let base = base_power w.station_type in
      let speed_factor = f.div (f.of_int w.speed_pct) (f.lit 100 0) in
      f.add (f.mul (f.mul base speed_factor) (f.add (f.lit 1 0) (f.mul wear_rate (f.lit 1 1))))
        (gauss (f.mul base (f.lit 2 2)))

  -- A cycle of a station that is not stopped: draw 0 is the tool's, draw 1 the power's, the sensors'
  -- follow.
  unfoldable pub run_station : (ℕ → F → F) → WorkCenter F → F → F → WorkCenter F × Readings F
  unfolding read_all calc_power advance
  run_station gauss w shift_factor ambient_temp =
      let tool = advance (gauss 0) w.tool 1 in
      let (sensors, readings) =
        read_all gauss 2 w.sensors tool.wear_rate shift_factor ambient_temp (is_warmup w.state) in
      let actual_ct =
        f.mul w.cycle_time_sec (f.div (f.lit 100 0) (f.of_int (max_ℤ (pos 40) w.speed_pct))) in
      let power = calc_power (gauss 1) w tool.wear_rate in
      (
        record w {
          state = running;
          tool = tool;
          sensors = sensors;
          run_time_sec = f.add w.run_time_sec actual_ct;
          planned_time_sec = f.add w.planned_time_sec w.design_cycle_time;
          total_cycles = w.total_cycles + 1;
          uptime_since_repair = w.uptime_since_repair + 1;
          power_kw = power;
          energy_kwh = f.add w.energy_kwh (f.mul power (f.div actual_ct (f.lit 3600 0)));
        },
        readings,
      )

  unfoldable pub execute_cycle : (ℕ → F → F) → WorkCenter F → F → F → WorkCenter F × Readings F
  unfolding run_station is_stopped
  execute_cycle gauss w shift_factor ambient_temp =
      if is_stopped w.state then (w, []) else run_station gauss w shift_factor ambient_temp

  unfoldable pub record_quality : WorkCenter F → Bool → WorkCenter F
  record_quality w true = record w { good_count = w.good_count + 1 }
  record_quality w false = record w { defect_count = w.defect_count + 1 }

  unfoldable pub trigger_breakdown : WorkCenter F → F → WorkCenter F
  trigger_breakdown w repair_time_sec = record w {
    state = breakdown;
    failure_count = w.failure_count + 1;
    total_repair_sec = f.add w.total_repair_sec repair_time_sec;
    downtime_sec = f.add w.downtime_sec repair_time_sec;
    last_failure_cycle = w.total_cycles;
    uptime_since_repair = 0;
  }

  unfoldable pub complete_repair : WorkCenter F → WorkCenter F
  complete_repair w = record w { state = warmup }

  unfoldable pub start_setup : WorkCenter F → F → WorkCenter F
  start_setup w duration_sec = record w {
    state = setup;
    setup_time_sec = f.add w.setup_time_sec duration_sec;
  }

  unfoldable pub complete_setup : WorkCenter F → WorkCenter F
  unfolding reset
  complete_setup w = record w { state = warmup; tool = reset w.tool }

  unfoldable pub set_speed : WorkCenter F → ℤ → WorkCenter F
  set_speed w pct = record w { speed_pct = max_ℤ (pos 40) (min_ℤ (pos 110) pct) }

  unfoldable pub oee : WorkCenter F → Oee F
  oee w =
      let availability =
        if f.lt (f.lit 0 0) w.planned_time_sec
        then f.div w.run_time_sec w.planned_time_sec
        else f.lit 10 1 in
      let performance =
        if f.lt (f.lit 0 0) w.run_time_sec
        then f.div (f.mul (f.of_int (pos w.total_cycles)) w.design_cycle_time) w.run_time_sec
        else f.lit 10 1 in
      let quality =
        if ltb 0 w.total_cycles
        then f.div (f.of_int (pos w.good_count)) (f.of_int (pos w.total_cycles))
        else f.lit 10 1 in
      record {
        availability = f.round (fmin (f.lit 10 1) availability) 4;
        performance = f.round (fmin (f.lit 10 1) performance) 4;
        quality = f.round (fmin (f.lit 10 1) quality) 4;
        oee = f.round (fmin (f.lit 10 1) (f.mul (f.mul availability performance) quality)) 4;
      }

  unfoldable pub mtbf : WorkCenter F → F
  mtbf w =
      if w.failure_count == 0
      then f.infinity
      else f.div w.run_time_sec (f.of_int (pos w.failure_count))

  unfoldable pub mttr : WorkCenter F → F
  mttr w =
      if w.failure_count == 0
      then f.lit 0 1
      else f.div w.total_repair_sec (f.of_int (pos w.failure_count))

  unfoldable pub yield_rate : WorkCenter F → F
  yield_rate w =
      let total = w.good_count + w.defect_count in
      if ltb 0 total then f.div (f.of_int (pos w.good_count)) (f.of_int (pos total)) else f.lit 10 1
