-- ===== src/Intelligence/Enrichment/Stable.antt =====
-- mas/intelligence/snapshot_enrichment.py: preparing a prepared snapshot again.
use manufacturing_mas.Prelude.{
  ◌≡◌, refl, ap, subst, ◌∙◌, inl, inr, Option, some, arith, String, false, str_eq, Option-cases,
}
use manufacturing_mas.Float.{Float}
use manufacturing_mas.Protocol.Value.{Fields, real, get, put}
use manufacturing_mas.Protocol.Value.Entries.{
  get-put_self, get-put_other, put-get, has-put_self, has-put_other,
}
use manufacturing_mas.Intelligence.Enrichment.{
  dict_or_empty, sensors_of, readings, with_readings, enrich_snapshot_for_router,
}

module _ {F : Type 0} where
  with_readings_twice :
      (s : Fields F) (v o h : F)
      → with_readings (with_readings s (v, o, h)) (v, o, h) ≡ with_readings s (v, o, h)
  with_readings_twice s v o h =
      let s1 = put "vibration" (real v) s in
      let s2 = put "oil_temp" (real o) s1 in
      let t = with_readings s (v, o, h) in
      let vib : put "vibration" (real v) t ≡ t =
        put-get "vibration" (real v) t
          (has-put_other "material_buffer_hours" "vibration" (real h) s2 (
            has-put_other "oil_temp" "vibration" (real o) s1 (has-put_self "vibration" (real v) s)))
          (get-put_other "material_buffer_hours" "vibration" (real h) s2 refl
            ∙ get-put_other "oil_temp" "vibration" (real o) s1 refl
            ∙ get-put_self "vibration" (real v) s) in
      let oil : put "oil_temp" (real o) t ≡ t =
        put-get "oil_temp" (real o) t
          (has-put_other "material_buffer_hours" "oil_temp" (real h) s2
            (has-put_self "oil_temp" (real o) s1))
          (get-put_other "material_buffer_hours" "oil_temp" (real h) s2 refl
            ∙ get-put_self "oil_temp" (real o) s1) in
      let hours : put "material_buffer_hours" (real h) t ≡ t =
        put-get "material_buffer_hours" (real h) t
          (has-put_self "material_buffer_hours" (real h) s2)
          (get-put_self "material_buffer_hours" (real h) s2) in
      rw vib (rw oil hours)

  get-with_readings :
      (key : String) (s : Fields F) (r : F × F × F)
      → str_eq "vibration" key ≡ false
      → str_eq "oil_temp" key ≡ false
      → str_eq "material_buffer_hours" key ≡ false
      → get key (with_readings s r) ≡ get key s
  get-with_readings key s (v, o, h) a b c =
      get-put_other "material_buffer_hours" key (real h) _ c
      ∙ get-put_other "oil_temp" key (real o) _ b
      ∙ get-put_other "vibration" key (real v) s a

module _ {F : Type 0} ⦃f : Float F⦄ where
  dict_or_empty-get :
      (key : String) (d d' : Fields F)
      → get key d ≡ get key d'
      → dict_or_empty key d ≡ dict_or_empty key d'
  unfolding dict_or_empty
  dict_or_empty-get key d d' e = rw (e, dict_or_empty) refl

  sensors_of-get :
      (d d' : Fields F) → get "stations" d ≡ get "stations" d' → sensors_of d ≡ sensors_of d'
  unfolding sensors_of
  sensors_of-get d d' e = rw (dict_or_empty-get "stations" d d' e, sensors_of) refl

module _ {F : Type 0} ⦃f : Float F⦄ (parse : String → Option F) where
  readings-with_readings :
      (s : Fields F) (r : F × F × F) → readings parse (with_readings s r) ≡ readings parse s
  unfolding readings
  readings-with_readings s r =
      let stations = get-with_readings "stations" s r refl refl refl in
      let materials = get-with_readings "materials" s r refl refl refl in
      let sensors = sensors_of-get (with_readings s r) s stations in
      let supply = dict_or_empty-get "materials" (with_readings s r) s materials in cc

  -- Preparing a prepared snapshot again changes nothing.
  pub enrich_snapshot_for_router_twice :
      (snapshot enriched : Fields F)
      → enrich_snapshot_for_router parse snapshot ≡ some enriched
      → enrich_snapshot_for_router parse enriched ≡ some enriched
  unfolding enrich_snapshot_for_router
  enrich_snapshot_for_router_twice snapshot enriched e =
      elim (Option-cases (readings parse snapshot)) [
        | inl nothing ↦ absurd (ground (arith, e, nothing))
        | inr ((v, o, h), found) ↦
            let same : with_readings snapshot (v, o, h) ≡ enriched = ground (arith, e, found) in
            let again = readings-with_readings snapshot (v, o, h) in
            let twice = with_readings_twice snapshot v o h in
            subst (λ x. enrich_snapshot_for_router parse x ≡ some x) same
              (rw (again, found, enrich_snapshot_for_router) (ap some twice))
      ]
