-- ===== src/Protocol/Value/Entries.antt =====
-- Reading a dictionary of values after a write.
use text.Mathlib.TextPositions.{eq_refl}
use manufacturing_mas.Prelude.{
  ◌≡◌, refl, ap, inl, inr, ◌||◌, String, true, false, arith, str_eq, eq_iff, Bool-cases,
}
use manufacturing_mas.Protocol.Value.{Value, Fields, end, field, get, has, get_or, put}

module _ {F : Type 0} where
  pub get-put_self : (key : String) (v : Value F) (d : Fields F) → get key (put key v d) ≡ v
  unfolding get put
  get-put_self key v end = simp eq_refl
  get-put_self key v (field k w rest) = ground (arith, eq_refl key, get-put_self key v rest)

  pub get-put_other :
      (key other : String) (v : Value F) (d : Fields F)
      → str_eq key other ≡ false
      → get other (put key v d) ≡ get other d
  unfolding get put
  get-put_other key other v end apart = rw apart refl
  get-put_other key other v (field k w rest) apart =
      let before = get-put_other key other v rest apart in
      ground (arith, before, eq_iff k key, eq_iff k other, eq_iff key other)

  has-put :
      (key other : String) (v : Value F) (d : Fields F)
      → has other (put key v d) ≡ (str_eq key other || has other d)
  unfolding has put
  has-put key other v end = ground arith
  has-put key other v (field k w rest) =
      ground (arith, has-put key other v rest, eq_iff k key, eq_iff k other, eq_iff key other)

  pub get_or-put_other :
      (key other : String) (v default : Value F) (d : Fields F)
      → str_eq key other ≡ false
      → get_or other default (put key v d) ≡ get_or other default d
  unfolding get_or
  get_or-put_other key other v default d apart =
      ground (arith, apart, has-put key other v d, get-put_other key other v d apart)

  pub get_or-put_self :
      (key : String) (v default : Value F) (d : Fields F) → get_or key default (put key v d) ≡ v
  unfolding get_or
  get_or-put_self key v default d =
      ground (arith, eq_refl key, has-put key key v d, get-put_self key v d)

  -- Writing what is there changes nothing.
  pub put-get :
      (key : String) (v : Value F) (d : Fields F)
      → has key d ≡ true
      → get key d ≡ v
      → put key v d ≡ d
  unfolding get has put
  put-get key v end h e = absurd (ground (arith, h))
  put-get key v (field k w rest) h e = elim (Bool-cases (str_eq k key)) [
    | inl same ↦
        let w_v : w ≡ v = ground (arith, e, same) in let k_key = (eq_iff k key).0 same in rw same cc
    | inr apart ↦
        let later : has key rest ≡ true = ground (arith, h, apart) in
        let there : get key rest ≡ v = ground (arith, e, apart) in
        rw apart (ap (field k w) (put-get key v rest later there))
  ]

  pub has-put_self : (key : String) (v : Value F) (d : Fields F) → has key (put key v d) ≡ true
  has-put_self key v d = ground (arith, has-put key key v d, eq_refl key)

  pub has-put_other :
      (key other : String) (v : Value F) (d : Fields F)
      → has other d ≡ true
      → has other (put key v d) ≡ true
  has-put_other key other v d h = ground (arith, has-put key other v d, h)
