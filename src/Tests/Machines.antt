-- ===== src/Tests/Machines.antt =====
-- mas/domain/machines.py at concrete inputs.
use manufacturing_mas.Prelude.{
  ◌+◌, ◌≤◌, get_elem?, some, ◌≡◌, ◌≢◌, refl, ◌⊎◌, true, false, [], arith, if◌then◌else◌, length,
}
use manufacturing_mas.Prelude.Int.{pos}
use manufacturing_mas.Float.{Fixed, fixed_float, Fixed-IsOrdered}
use manufacturing_mas.Domain.Machines.Tool.{new_tool, advance, advance_lem}
use manufacturing_mas.Domain.Machines.Sensor.{
  RealisticSensor, new_sensor, read, recover, critical, normal, warning, inverted_thresholds,
  read_bounds, recover_lem,
}
use manufacturing_mas.Domain.Machines.WorkCenter.{
  WorkCenter, running, breakdown, maintenance, setup, warmup, execute_cycle, trigger_breakdown,
  idle,
}
use manufacturing_mas.Domain.Machines.States.{
  breaks, judges, act, here, next, IsValid, EndsBreakdown, Reach-IsValid, breakdown_stays,
  execute_cycle_lem,
}
use manufacturing_mas.Domain.Machines.Line.{create_spot_welder, create_production_line, station_ids}
use manufacturing_mas.Domain.Machines.Fleet.{Reach-create_production_line}

-- Every draw is its own mean.
abbrev still : Fixed → Fixed
still _ = pos 0

abbrev nugget : RealisticSensor Fixed
unfolding new_sensor
nugget = new_sensor "너겟직경" (pos 55000) (pos 1500) "mm" (pos 45000) (pos 40000) (pos 8200) (pos 0)

advance_lem_example :
    let t' = advance {F = Fixed} still (new_tool 8000) 1 in
    (fixed_float.le (fixed_float.lit 0 0) t'.wear_rate ≡ true)
    × (fixed_float.le t'.wear_rate (fixed_float.lit 25 1) ≡ true)
    × (t'.current_life ≡ (new_tool {F = Fixed} 8000).current_life + 1)
    × (t'.max_life ≡ (new_tool {F = Fixed} 8000).max_life)
advance_lem_example = advance_lem Fixed-IsOrdered still (new_tool 8000) 1 refl

inverted_thresholds_example :
    let (s', reading) = read still nugget (pos 0) (pos 10000) (pos 220000) false in
    (reading.status ≡ (
      if fixed_float.le nugget.critical_threshold (fixed_float.abs s'.value)
      then critical
      else normal))
    × (reading.status ≢ warning)
unfolding nugget
inverted_thresholds_example =
    inverted_thresholds Fixed-IsOrdered still nugget (pos 0) (pos 10000) (pos 220000) false refl

read_bounds_example :
    let warm = (read still nugget (pos 0) (pos 10000) (pos 220000) true).0 in
    let hot = (read still nugget (pos 0) (pos 10000) (pos 220000) false).0 in
    (length warm.history ≤ 100)
    × (length hot.history ≤ 100)
    × (fixed_float.le (fixed_float.lit 7 1) warm.warmup_factor ≡ true)
    × (fixed_float.le hot.warmup_factor (fixed_float.lit 10 1) ≡ true)
read_bounds_example = read_bounds Fixed-IsOrdered still nugget (pos 0) (pos 10000) (pos 220000)

recover_lem_example : fixed_float.le (fixed_float.lit 0 0) (recover nugget (pos 30000)).drift ≡ true
recover_lem_example = recover_lem Fixed-IsOrdered nugget (pos 30000)

abbrev welder : WorkCenter Fixed
unfolding create_spot_welder
welder = create_spot_welder "WC-03"

welder-IsValid : IsValid welder
unfolding create_spot_welder
welder-IsValid = ground arith

abbrev broken : WorkCenter Fixed
unfolding act trigger_breakdown
broken = act welder (breaks (pos 6000000))

Reach-IsValid_example : IsValid broken
unfolding act trigger_breakdown
Reach-IsValid_example = Reach-IsValid (next here (breaks (pos 6000000))) welder-IsValid

breakdown_stays_example :
    EndsBreakdown {F = Fixed} (judges true)
    ⊎ (((act broken (judges true)).state ≡ breakdown)
        × ((act broken (judges true)).total_cycles ≡ broken.total_cycles))
unfolding act trigger_breakdown
breakdown_stays_example = breakdown_stays broken (judges true) refl

execute_cycle_lem_example :
    let (w', readings) = execute_cycle (λ _. still) welder (pos 10000) (pos 220000) in
    (((welder.state ≡ breakdown) ⊎ ((welder.state ≡ maintenance) ⊎ (welder.state ≡ setup)))
      × (w' ≡ welder)
      × (readings ≡ []))
    ⊎ (((welder.state ≡ running) ⊎ ((welder.state ≡ idle) ⊎ (welder.state ≡ warmup)))
        × (w'.state ≡ running)
        × (w'.total_cycles ≡ welder.total_cycles + 1)
        × (w'.uptime_since_repair ≡ welder.uptime_since_repair + 1)
        × (w'.good_count ≡ welder.good_count)
        × (w'.defect_count ≡ welder.defect_count)
        × (w'.failure_count ≡ welder.failure_count)
        × (w'.speed_pct ≡ welder.speed_pct))
execute_cycle_lem_example = execute_cycle_lem (λ _. still) welder (pos 10000) (pos 220000)

Reach-create_production_line_example :
    (get_elem? station_ids 2 ≡ some broken.station_id) × IsValid broken
unfolding act trigger_breakdown create_production_line
Reach-create_production_line_example =
    Reach-create_production_line 2 welder broken refl (next here (breaks (pos 6000000)))
