-- ===== src/Domain/Machines/Line.antt =====
-- mas/domain/machines.py: the six stations of the line, with the identifiers of
-- mas/core/manufacturing_ids.py.
use manufacturing_mas.Prelude.{String, List, [], ◌∷◌}
use manufacturing_mas.Float.{Float, neg}
use manufacturing_mas.Domain.Machines.Tool.{new_tool}
use manufacturing_mas.Domain.Machines.Sensor.{new_sensor}
use manufacturing_mas.Domain.Machines.WorkCenter.{WorkCenter, new_work_center}

abbrev pub station_ids : List String
station_ids = "WC-01" ∷ "WC-02" ∷ "WC-03" ∷ "WC-04" ∷ "WC-05" ∷ "WC-06" ∷ []

module _ {F : Type 0} ⦃f : Float F⦄ where
  abbrev none_per_cycle : F
  none_per_cycle = f.lit 0 1

  unfoldable pub create_blanking_press : String → WorkCenter F
  unfolding new_sensor new_tool new_work_center
  create_blanking_press station_id =
      new_work_center station_id "블랭킹 프레스" "PRESS" (f.lit 45 1)
        ((
          "vibration",
          new_sensor "진동" (f.lit 21 1) (f.lit 25 2) "mm/s" (f.lit 38 1) (f.lit 50 1) (f.lit 88 2)
              (f.lit 3 3),
        )
          ∷ (
            "tonnage",
            new_sensor "프레스압" (f.lit 1500 1) (f.lit 30 1) "ton" (f.lit 170 0) (f.lit 180 0)
                (f.lit 90 2) none_per_cycle,
          )
          ∷ (
            "oil_temp",
            new_sensor "유압유온" (f.lit 420 1) (f.lit 12 1) "°C" (f.lit 55 0) (f.lit 65 0) (f.lit 92 2)
                none_per_cycle,
          )
          ∷ (
            "die_clearance",
            new_sensor "금형간극" (f.lit 15 2) (f.lit 8 3) "mm" (f.lit 22 2) (f.lit 28 2) (f.lit 85 2)
                (f.lit 2 4),
          )
          ∷ (
            "noise_db",
            new_sensor "소음" (f.lit 850 1) (f.lit 20 1) "dB" (f.lit 95 0) (f.lit 105 0) (f.lit 80 2)
                none_per_cycle,
          )
          ∷ [])
        (new_tool 8000)

  unfoldable pub create_forming_press : String → WorkCenter F
  unfolding new_sensor new_tool new_work_center
  create_forming_press station_id =
      new_work_center station_id "포밍 프레스" "PRESS" (f.lit 50 1)
        ((
          "vibration",
          new_sensor "진동" (f.lit 18 1) (f.lit 20 2) "mm/s" (f.lit 35 1) (f.lit 48 1) (f.lit 87 2)
              (f.lit 2 3),
        )
          ∷ (
            "tonnage",
            new_sensor "프레스압" (f.lit 1200 1) (f.lit 25 1) "ton" (f.lit 140 0) (f.lit 155 0)
                (f.lit 91 2) none_per_cycle,
          )
          ∷ (
            "springback",
            new_sensor "스프링백" (f.lit 8 1) (f.lit 6 2) "mm" (f.lit 12 1) (f.lit 15 1) (f.lit 83 2)
                (f.lit 3 4),
          )
          ∷ (
            "oil_temp",
            new_sensor "유압유온" (f.lit 400 1) (f.lit 10 1) "°C" (f.lit 52 0) (f.lit 62 0) (f.lit 92 2)
                none_per_cycle,
          )
          ∷ (
            "stroke_position",
            new_sensor "스트로크위치" (f.lit 1800 1) (f.lit 3 1) "mm" (f.lit 182 0) (f.lit 184 0)
                (f.lit 95 2) none_per_cycle,
          )
          ∷ [])
        (new_tool 6000)

  unfoldable pub create_spot_welder : String → WorkCenter F
  unfolding new_sensor new_tool new_work_center
  create_spot_welder station_id =
      new_work_center station_id "스팟 용접" "WELD" (f.lit 60 1)
        ((
          "weld_current",
          new_sensor "용접전류" (f.lit 8500 0) (f.lit 120 0) "A" (f.lit 9200 0) (f.lit 9800 0)
              (f.lit 86 2) none_per_cycle,
        )
          ∷ (
            "weld_force",
            new_sensor "가압력" (f.lit 32 1) (f.lit 8 2) "kN" (f.lit 38 1) (f.lit 42 1) (f.lit 88 2)
                none_per_cycle,
          )
          ∷ (
            "nugget_dia",
            new_sensor "너겟직경" (f.lit 55 1) (f.lit 15 2) "mm" (f.lit 45 1) (f.lit 40 1) (f.lit 82 2)
                (neg (f.lit 1 3)),
          )
          ∷ (
            "electrode_tip",
            new_sensor "전극팁마모" (f.lit 0 1) (f.lit 2 2) "mm" (f.lit 8 1) (f.lit 12 1) (f.lit 90 2)
                (f.lit 5 3),
          )
          ∷ (
            "spatter_rate",
            new_sensor "스패터율" (f.lit 20 1) (f.lit 8 1) "%" (f.lit 50 1) (f.lit 80 1) (f.lit 75 2)
                none_per_cycle,
          )
          ∷ [])
        (new_tool 3000)

  unfoldable pub create_heat_treatment : String → WorkCenter F
  unfolding new_sensor new_tool new_work_center
  create_heat_treatment station_id =
      new_work_center station_id "열처리" "HEAT" (f.lit 150 1)
        ((
          "furnace_temp",
          new_sensor "노내온도" (f.lit 8500 1) (f.lit 50 1) "°C" (f.lit 880 0) (f.lit 900 0)
              (f.lit 95 2) (f.lit 1 2),
        )
          ∷ (
            "quench_temp",
            new_sensor "냉각수온" (f.lit 350 1) (f.lit 15 1) "°C" (f.lit 45 0) (f.lit 55 0) (f.lit 93 2)
                none_per_cycle,
          )
          ∷ (
            "hardness",
            new_sensor "경도(HRC)" (f.lit 580 1) (f.lit 8 1) "HRC" (f.lit 54 0) (f.lit 50 0)
                (f.lit 88 2) none_per_cycle,
          )
          ∷ (
            "atmosphere",
            new_sensor "분위기가스" (f.lit 3 1) (f.lit 5 2) "%C" (f.lit 5 1) (f.lit 7 1) (f.lit 90 2)
                none_per_cycle,
          )
          ∷ (
            "energy_rate",
            new_sensor "에너지소비" (f.lit 750 1) (f.lit 30 1) "kW" (f.lit 90 0) (f.lit 100 0)
                (f.lit 85 2) none_per_cycle,
          )
          ∷ [])
        (new_tool 15000)

  unfoldable pub create_cnc_machine : String → WorkCenter F
  unfolding new_sensor new_tool new_work_center
  create_cnc_machine station_id =
      new_work_center station_id "CNC 가공" "CNC" (f.lit 80 1)
        ((
          "spindle_vib",
          new_sensor "스핀들진동" (f.lit 5 1) (f.lit 8 2) "mm/s" (f.lit 12 1) (f.lit 20 1) (f.lit 86 2)
              (f.lit 1 3),
        )
          ∷ (
            "spindle_load",
            new_sensor "스핀들부하" (f.lit 450 1) (f.lit 20 1) "%" (f.lit 75 0) (f.lit 90 0) (f.lit 88 2)
                none_per_cycle,
          )
          ∷ (
            "coolant_temp",
            new_sensor "절삭유온" (f.lit 240 1) (f.lit 8 1) "°C" (f.lit 30 0) (f.lit 35 0) (f.lit 91 2)
                none_per_cycle,
          )
          ∷ (
            "surface_ra",
            new_sensor "표면거칠기" (f.lit 16 1) (f.lit 12 2) "μm" (f.lit 25 1) (f.lit 32 1) (f.lit 84 2)
                (f.lit 2 3),
          )
          ∷ (
            "dimension_dev",
            new_sensor "치수편차" (f.lit 0 1) (f.lit 5 3) "mm" (f.lit 3 2) (f.lit 5 2) (f.lit 87 2)
                (f.lit 1 4),
          )
          ∷ [])
        (new_tool 2000)

  unfoldable pub create_assembly_station : String → WorkCenter F
  unfolding new_sensor new_tool new_work_center
  create_assembly_station station_id =
      new_work_center station_id "조립/검사" "ASSY" (f.lit 100 1)
        ((
          "torque",
          new_sensor "체결토크" (f.lit 250 1) (f.lit 5 1) "Nm" (f.lit 28 0) (f.lit 32 0) (f.lit 89 2)
              none_per_cycle,
        )
          ∷ (
            "force",
            new_sensor "조립압입력" (f.lit 18 1) (f.lit 6 2) "kN" (f.lit 22 1) (f.lit 25 1) (f.lit 87 2)
                none_per_cycle,
          )
          ∷ (
            "vision_score",
            new_sensor "비전점수" (f.lit 950 1) (f.lit 15 1) "점" (f.lit 88 0) (f.lit 80 0) (f.lit 82 2)
                none_per_cycle,
          )
          ∷ (
            "leak_rate",
            new_sensor "기밀검사" (f.lit 0 1) (f.lit 3 3) "cc/min" (f.lit 1 2) (f.lit 2 2) (f.lit 90 2)
                none_per_cycle,
          )
          ∷ (
            "final_weight",
            new_sensor "중량" (f.lit 24500 1) (f.lit 30 1) "g" (f.lit 2480 0) (f.lit 2500 0)
                (f.lit 93 2) none_per_cycle,
          )
          ∷ [])
        (new_tool 20000)

  unfoldable pub create_production_line : List (WorkCenter F)
  unfolding create_blanking_press create_forming_press create_spot_welder create_heat_treatment
      create_cnc_machine create_assembly_station
  create_production_line =
      create_blanking_press "WC-01"
      ∷ create_forming_press "WC-02"
      ∷ create_spot_welder "WC-03"
      ∷ create_heat_treatment "WC-04"
      ∷ create_cnc_machine "WC-05"
      ∷ create_assembly_station "WC-06"
      ∷ []
