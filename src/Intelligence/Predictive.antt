-- ===== src/Intelligence/Predictive.antt =====
-- mas/intelligence/equipment_predictive_models.py and mas/agents/equipment_sub: the profiles of the
-- station types, the anomaly score of a sensor and the remaining life. `upper` is Python's.
use manufacturing_mas.Prelude.{
  ℕ, ◌+◌, String, Bool, false, ◌||◌, Option, none, some, List, [], ◌∷◌, leb, if◌then◌else◌, length,
  last_n, push_capped, str_eq,
}
use manufacturing_mas.Prelude.Int.{pos}
use manufacturing_mas.Prelude.Dict.{Dict, lookup, insert}
use manufacturing_mas.Float.{Float, fmax, fmin}

pub record Profile (F : Type 0) : Type 0 where
  pub model_id : String
  pub name_kr : String
  pub primary_signals : List String
  pub secondary_signals : List String
  pub anomaly_sensitivity : F
  pub rul_scale : F
  pub focus : String

abbrev elem : String → List String → Bool
elem s [] = false
elem s (x ∷ rest) = str_eq x s || elem s rest

-- The increases between neighbours.
unfoldable pub increases : {F : Type 0} → (F → F → Bool) → List F → ℕ
increases lt [] = 0
increases lt (x ∷ []) = 0
increases lt (x ∷ y ∷ rest) =
    let later = increases lt (y ∷ rest) in if lt x y then later + 1 else later

module _ {F : Type 0} where
  unfoldable pub trim_history : ℕ → String → F → Dict (List F) → Dict (List F)
  unfolding lookup insert push_capped
  trim_history maxlen key val store =
      let known : List F = elim (lookup key store) [ none ↦ [] | some xs ↦ xs ] in
      insert key (push_capped maxlen maxlen known val) store

module _ {F : Type 0} ⦃f : Float F⦄ where
  -- `EQUIPMENT_PM_MODELS`, with PRESS for a type that is not in it.
  unfoldable pub equipment_pm_models : String → Profile F
  equipment_pm_models st =
      if str_eq st "WELD"
      then record {
        model_id = "pm-weld-nugget-v2";
        name_kr = "스팟용접 너겟·전극 예지";
        primary_signals = "weld_current" ∷ "weld_force" ∷ "nugget_dia" ∷ [];
        secondary_signals = "electrode_tip" ∷ "spatter_rate" ∷ [];
        anomaly_sensitivity = f.lit 112 2;
        rul_scale = f.lit 92 2;
        focus = "전극 마모·전류 드리프트";
      }
      else if str_eq st "HEAT"
      then record {
        model_id = "pm-furnace-soak-v1";
        name_kr = "열처리 노·경도 예지";
        primary_signals = "furnace_temp" ∷ "hardness" ∷ "quench_temp" ∷ [];
        secondary_signals = "atmosphere" ∷ "energy_rate" ∷ [];
        anomaly_sensitivity = f.lit 98 2;
        rul_scale = f.lit 108 2;
        focus = "노체·냉각·분위기 가스";
      }
      else if str_eq st "CNC"
      then record {
        model_id = "pm-cnc-spindle-v1";
        name_kr = "CNC 스핀들·진동 예지";
        primary_signals = "spindle_vib" ∷ "spindle_load" ∷ "surface_ra" ∷ [];
        secondary_signals = "coolant_temp" ∷ "dimension_dev" ∷ [];
        anomaly_sensitivity = f.lit 108 2;
        rul_scale = f.lit 95 2;
        focus = "스핀들·공구·표면 거칠기";
      }
      else if str_eq st "ASSY"
      then record {
        model_id = "pm-assy-torque-vision-v1";
        name_kr = "조립 토크·비전 예지";
        primary_signals = "torque" ∷ "vision_score" ∷ "force" ∷ [];
        secondary_signals = "leak_rate" ∷ "final_weight" ∷ [];
        anomaly_sensitivity = f.lit 10 1;
        rul_scale = f.lit 102 2;
        focus = "체결·비전·기밀";
      }
      else record {
        model_id = "pm-press-vib-hyd-v1";
        name_kr = "프레스 진동·유압 예지";
        primary_signals = "vibration" ∷ "oil_temp" ∷ "tonnage" ∷ [];
        secondary_signals = "die_clearance" ∷ "noise_db" ∷ "springback" ∷ "stroke_position" ∷ [];
        anomaly_sensitivity = f.lit 105 2;
        rul_scale = f.lit 10 1;
        focus = "베어링·유압 펌프·금형 마모";
      }

  abbrev trend_score : List F → F
  unfolding increases
  trend_score history =
      let increasing = increases f.lt (last_n 10 history) in
      if leb 10 (length history)
      then (if leb 8 increasing
          then f.lit 4 1
          else if leb 6 increasing
          then f.lit 2 1
          else f.lit 0 1)
      else f.lit 0 1

  unfoldable pub compute_raw_anomaly : F → F → F → List F → F
  unfolding trend_score
  compute_raw_anomaly value ma std history =
      let z_score = f.div (f.abs (f.sub value ma)) (fmax std (f.lit 1 3)) in
      if f.lt std (f.lit 1 3)
      then f.lit 0 1
      else fmin (f.lit 10 1)
          (f.add (f.mul (f.div z_score (f.of_int (pos 3))) (f.lit 6 1)) (trend_score history))

module _ {F : Type 0} ⦃f : Float F⦄ (upper : String → String) where
  unfoldable pub profile_for_station_type : String → Profile F
  unfolding equipment_pm_models
  profile_for_station_type station_type =
      equipment_pm_models (upper (if str_eq station_type "" then "PRESS" else station_type))

  unfoldable pub scale_anomaly_for_type : String → String → F → F
  unfolding profile_for_station_type
  scale_anomaly_for_type station_type sensor base =
      let p = profile_for_station_type station_type in
      let boost =
        if elem sensor p.primary_signals
        then f.lit 112 2
        else if elem sensor p.secondary_signals
        then f.lit 10 1
        else f.lit 88 2 in
      fmin (f.lit 10 1) (f.mul (f.mul base p.anomaly_sensitivity) boost)

  unfoldable pub scale_rul_hours : String → F → F
  unfolding profile_for_station_type
  scale_rul_hours station_type base =
      fmax (f.lit 5 1) (f.mul base (profile_for_station_type station_type).rul_scale)

  -- None stands for an infinite time between failures.
  unfoldable pub estimate_rul_hours : F → Option F → String → F
  unfolding scale_rul_hours
  estimate_rul_hours health none station_type = scale_rul_hours station_type (f.lit 1000 1)
  estimate_rul_hours health (some mtbf) station_type =
      if f.le mtbf (f.of_int (pos 0))
      then scale_rul_hours station_type (f.lit 1000 1)
      else scale_rul_hours station_type
          (f.mul (f.div mtbf (f.lit 36000 1)) (f.div health (f.lit 1000 1)))
