-- ===== src/Agents/Roles/Quality/Sense.antt =====
-- mas/agents/quality_agent.py: `sense`, with the summary of mas/agents/qa_sub/spc.py. Where the code
-- raises, the result is none.
use Prim.Native.String.{◌++◌ as append}
use manufacturing_mas.Prelude.{
  ℕ, String, Bool, true, false, Option, none, some, List, [], ◌∷◌, ◌++◌, leb, if◌then◌else◌, length,
}
use manufacturing_mas.Prelude.Int.{pos}
use manufacturing_mas.Prelude.Dict.{Dict, lookup, insert}
use manufacturing_mas.Float.{Float}
use manufacturing_mas.Agents.Roles.Quality.{
  QualityAgent, QualityView, QualityObs, CpkInfo, Violation, keep_last, spec_limits, calc_cpk,
  cpk_trend, check_run_rules,
}

abbrev violations_of : String → String → String → List String → List Violation
violations_of sid sname key [] = []
violations_of sid sname key (rule ∷ rest) =
    record { station = sid; sensor = sname; rule = rule; key = key }
    ∷ violations_of sid sname key rest

abbrev pub trend_of : ℕ → String
trend_of n = if leb 3 n then "악화" else if leb 1 n then "주의" else "안정"

-- `key in limits`
unfoldable pub has_limits : {F : Type 0} → String → Dict (F × F) → Bool
unfolding lookup
has_limits key limits = elim (lookup key limits) [ none ↦ false | some l ↦ true ]

module _ {F : Type 0} ⦃f : Float F⦄ where
  unfoldable pub cpk_info : Dict (List F) → String → F → CpkInfo F
  unfolding cpk_trend
  cpk_info history key cpk = record {
    cpk = f.round cpk 3;
    trend = cpk_trend history key;
    status = if f.le (f.lit 133 2) cpk then "양호" else if f.le (f.lit 10 1) cpk then "주의" else "위험";
  }

  unfoldable pub sense_sensor :
      String → String → F → QualityAgent F × QualityObs F → QualityAgent F × QualityObs F
  unfolding keep_last has_limits spec_limits calc_cpk cpk_info check_run_rules insert
  sense_sensor sid sname value (a, obs) =
      let key = append sid (append "." sname) in
      let measured = keep_last 200 key value a.measurement_history in
      let cpk = calc_cpk measured key in
      let cpks = keep_last 50 key cpk a.cpk_history in
      let violations =
        obs.spc_violations ++ violations_of sid sname key (check_run_rules measured key) in
      if has_limits {F = F} key spec_limits
      then (
        record a { measurement_history = measured; cpk_history = cpks },
        record obs {
          cpk_status = insert key (cpk_info cpks key cpk) obs.cpk_status;
          spc_violations = violations;
        },
      )
      else (record a { measurement_history = measured }, record obs { spc_violations = violations })

  unfoldable pub sense_sensors :
      String → Dict F → QualityAgent F × QualityObs F → QualityAgent F × QualityObs F
  unfolding sense_sensor
  sense_sensors sid [] st = st
  sense_sensors sid ((sname, value) ∷ rest) st =
      sense_sensors sid rest (sense_sensor sid sname value st)

  abbrev pub add_risk : String → QualityView F → QualityObs F → QualityObs F
  add_risk sid s obs = record obs {
    quality_risk_stations =
        if f.lt s.quality (f.lit 90 2)
        then obs.quality_risk_stations
          ++ record { station = sid; quality_rate = f.round s.quality 3; name = s.name } ∷ []
        else obs.quality_risk_stations;
  }

  abbrev pub add_yield : String → QualityView F → QualityObs F → QualityObs F
  add_yield sid s obs = record obs {
    yield_by_station =
        insert sid (f.round (f.mul s.quality (f.of_int (pos 100))) 1) obs.yield_by_station;
  }

  unfoldable pub sense_stations :
      Dict (QualityView F) → QualityAgent F × QualityObs F → QualityAgent F × QualityObs F
  unfolding sense_sensors
  sense_stations [] st = st
  sense_stations ((sid, s) ∷ rest) (a, obs) =
      let (b, seen) = sense_sensors sid s.values (a, add_yield sid s obs) in
      sense_stations rest (b, add_risk sid s seen)

  -- The summary takes the minimum of the entries, which are dictionaries: two of them cannot be
  -- compared.
  unfoldable pub summarize_spc : Dict (CpkInfo F) → Bool
  summarize_spc status = leb (length status) 1

  abbrev pub no_obs : QualityObs F
  no_obs = record {
    cpk_status = [];
    spc_violations = [];
    defect_trend = "안정";
    yield_by_station = [];
    quality_risk_stations = [];
  }

  unfoldable pub sense :
      QualityAgent F → Dict (QualityView F) → Option (QualityAgent F × QualityObs F)
  unfolding sense_stations summarize_spc
  sense a stations =
      let (b, obs) = sense_stations stations (a, no_obs) in
      if summarize_spc obs.cpk_status
      then some (b, record obs { defect_trend = trend_of (length obs.quality_risk_stations) })
      else none
