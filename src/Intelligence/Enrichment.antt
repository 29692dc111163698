-- ===== src/Intelligence/Enrichment.antt =====
-- mas/intelligence/snapshot_enrichment.py and domain_inference.py: the flat fields that the router
-- reads of a snapshot, and the risk bands. Where the code raises, the result is none. `float(s)` of a
-- text is `parse`.
pub mod Stable
use manufacturing_mas.Prelude.{
  ℕ, ◌≡◌, refl, String, Bool, true, false, ◌||◌, Option, none, some, if◌then◌else◌,
}
use manufacturing_mas.Prelude.Int.{pos}
use manufacturing_mas.Float.{Float, fmin}
use manufacturing_mas.Protocol.Value.{
  Value, Fields, null, whole, real, text, object, end, field, get, get_or, put, truthy, ◌or◌, Cast,
  cast, to_float,
}

module _ {F : Type 0} where
  abbrev pub with_readings : Fields F → F × F × F → Fields F
  with_readings snapshot (vibration, oil, hours) =
      put "material_buffer_hours" (real hours)
        (put "oil_temp" (real oil) (put "vibration" (real vibration) snapshot))

module _ {F : Type 0} where
  abbrev vibration_fields : Fields F → Fields F
  unfolding get
  vibration_fields sensors = elim (get "vibration" sensors) [ object d ↦ d | _ ↦ end ]

module _ {F : Type 0} ⦃f : Float F⦄ where
  -- `d.get(key) or {}`, of which the code takes entries.
  unfoldable pub dict_or_empty : String → Fields F → Option (Fields F)
  unfolding get truthy
  dict_or_empty key d =
      if truthy (get key d)
      then elim (get key d) [ object fields ↦ some fields | _ ↦ none ]
      else some end

  unfoldable pub defect_risk_band : F → F → String
  defect_risk_band vib vib_ma =
      if f.le (f.lit 45 1) vib || f.le (f.lit 42 1) vib_ma
      then "HIGH"
      else if f.le (f.lit 35 1) vib || f.le (f.lit 33 1) vib_ma
      then "MEDIUM"
      else "LOW"

  unfoldable pub rul_band : F → F → String
  rul_band vib oil =
      if f.le (f.lit 75 0) oil || f.le (f.lit 50 1) vib
      then "RED"
      else if f.le (f.lit 60 0) oil || f.le (f.lit 40 1) vib
      then "YELLOW"
      else "GREEN"

  unfoldable pub sensors_of : Fields F → Option (Fields F)
  unfolding dict_or_empty
  sensors_of snapshot = elim (dict_or_empty "stations" snapshot) [
    | none ↦ none
    | some stations ↦ elim (dict_or_empty "WC-01" stations) [
      | none ↦ none
      | some wc01 ↦ dict_or_empty "sensors" wc01
    ]
  ]

module _ {F : Type 0} ⦃f : Float F⦄ (parse : String → Option F) where
  -- `_num`, with the default 0.0: the entry, or else `value`, or else `ma`.
  abbrev num : String → Fields F → F
  unfolding get get_or to_float
  num key d = elim (get_or key (get_or "value" (get "ma" d) d) d) [
    | null ↦ f.lit 0 1
    | v ↦ elim (to_float parse v) [ cast x ↦ x | _ ↦ f.lit 0 1 ]
  ]

  unfoldable pub sensor_value : Value F → Option F
  unfolding ◌or◌ to_float num
  sensor_value (object d) = some (num "value" d)
  sensor_value v = elim (to_float parse (v or whole (pos 0))) [ cast x ↦ some x | _ ↦ none ]

  abbrev supply_hours : Value F → Option F
  unfolding get to_float
  supply_hours (object m) = elim (get "days_supply" m) [
    | null ↦ none
    | v ↦ elim (to_float parse v) [ cast x ↦ some (f.mul x (f.lit 240 1)) | _ ↦ none ]
  ]
  supply_hours _ = none

  -- The shortest supply of the materials, from `min_h` on.
  unfoldable pub min_hours : F → Fields F → F
  unfolding supply_hours
  min_hours min_h end = min_h
  min_hours min_h (field k m rest) = elim (supply_hours m) [
    | none ↦ min_hours min_h rest
    | some hours ↦ min_hours (fmin min_h hours) rest
  ]

  unfoldable pub buffer_hours : Fields F → F
  unfolding min_hours
  buffer_hours materials =
      let min_h = min_hours (f.lit 9990 1) materials in
      if f.lt min_h (f.lit 9990 1) then min_h else f.lit 990 1

  -- Of the sensors and the materials, where these are dictionaries.
  readings_of : Option (Fields F) → Option (Fields F) → Option (F × F × F)
  unfolding sensor_value get buffer_hours
  readings_of (some sensors) (some materials) = elim (sensor_value (get "vibration" sensors)) [
    | none ↦ none
    | some vibration ↦ elim (sensor_value (get "oil_temp" sensors)) [
      | none ↦ none
      | some oil ↦ some (vibration, oil, buffer_hours materials)
    ]
  ]
  readings_of _ _ = none

  -- Vibration, oil temperature and the hours of material.
  unfoldable pub readings : Fields F → Option (F × F × F)
  unfolding sensors_of dict_or_empty readings_of
  readings snapshot = readings_of (sensors_of snapshot) (dict_or_empty "materials" snapshot)

  unfoldable pub enrich_snapshot_for_router : Fields F → Option (Fields F)
  unfolding readings
  enrich_snapshot_for_router snapshot = elim (readings snapshot) [
    | none ↦ none
    | some r ↦ some (with_readings snapshot r)
  ]

  -- `float(v or 0)`
  abbrev float_or_0 : Value F → Option F
  unfolding ◌or◌ to_float
  float_or_0 v = elim (to_float parse (v or whole (pos 0))) [ cast x ↦ some x | _ ↦ none ]

  unfoldable pub infer_domain_signals : Fields F → Option (Fields F)
  unfolding enrich_snapshot_for_router float_or_0 get get_or sensors_of vibration_fields
      defect_risk_band rul_band
  infer_domain_signals snapshot = elim (enrich_snapshot_for_router snapshot) [
    | none ↦ none
    | some e ↦ elim (float_or_0 (get "vibration" e)) [
      | none ↦ none
      | some vib ↦ elim (float_or_0 (get "oil_temp" e)) [
        | none ↦ none
        | some oil ↦ elim (sensors_of snapshot) [
          | none ↦ none
          | some sens ↦ elim (float_or_0 (get_or "ma" (real vib) (vibration_fields sens))) [
            | none ↦ none
            | some vib_ma ↦ some (
                field "defect_risk_band" (text (defect_risk_band vib vib_ma)) (
                  field "rul_band" (text (rul_band vib oil)) (
                    field "vibration_peak" (real (f.round vib 3)) (
                      field "vibration_ma" (real (f.round vib_ma 3))
                        (field "inference_backend" (text "rules_v1") end)))))
          ]
        ]
      ]
    ]
  ]
