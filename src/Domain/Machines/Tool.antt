-- ===== src/Domain/Machines/Tool.antt =====
-- mas/domain/machines.py: `ToolWear`.
use manufacturing_mas.Prelude.{ℕ, ◌+◌, ◌≡◌, Bool, true, arith, if◌then◌else◌}
use manufacturing_mas.Prelude.Int.{pos}
use manufacturing_mas.Float.{Float, IsOrdered, fmax, fmin, clamp_bounds}

pub data Region : Type 0 where
  initial_stable linear_wear rapid_wear : Region

pub record ToolWear (F : Type 0) : Type 0 where
  pub current_life : ℕ
  pub max_life : ℕ
  pub wear_rate : F
  pub region : Region

module _ {F : Type 0} ⦃f : Float F⦄ where
  unfoldable pub new_tool : ℕ → ToolWear F
  new_tool max_life = record {
    current_life = 0;
    max_life = max_life;
    wear_rate = f.lit 0 1;
    region = initial_stable;
  }

  -- a + b * (ratio - c) / d + noise
  abbrev wear_curve : F → F → F → F → F → F → F
  wear_curve ratio a b c d noise = f.add (f.add a (f.div (f.mul b (f.sub ratio c)) d)) noise

  abbrev capped : F → F
  capped rate = fmax (f.lit 0 0) (fmin rate (f.lit 25 1))

  -- The life of a tool is positive in the program; one of 0 raises a ZeroDivisionError there.
  unfoldable pub advance : (F → F) → ToolWear F → ℕ → ToolWear F
  advance gauss t cycles =
      let life = t.current_life + cycles in
      let ratio = f.div (f.of_int (pos life)) (f.of_int (pos t.max_life)) in
      if f.lt ratio (f.lit 3 1)
      then record t {
        current_life = life;
        wear_rate = capped (f.add (f.lit 2 1) (gauss (f.lit 2 2)));
        region = initial_stable;
      }
      else if f.lt ratio (f.lit 8 1)
      then record t {
        current_life = life;
        wear_rate =
            capped (
              wear_curve ratio (f.lit 5 1) (f.lit 3 1) (f.lit 3 1) (f.lit 5 1) (gauss (f.lit 3 2)));
        region = linear_wear;
      }
      else record t {
        current_life = life;
        wear_rate =
            capped (
              wear_curve ratio (f.lit 8 1) (f.lit 15 1) (f.lit 8 1) (f.lit 2 1)
                (gauss (f.lit 5 2)));
        region = rapid_wear;
      }

  unfoldable pub remaining_pct : ToolWear F → F
  remaining_pct t =
      f.mul
        (fmax (f.lit 0 0)
          (f.sub (f.lit 1 0) (f.div (f.of_int (pos t.current_life)) (f.of_int (pos t.max_life)))))
        (f.lit 100 0)

  unfoldable pub needs_change : ToolWear F → Bool
  needs_change t =
      f.le (f.mul (f.of_int (pos t.max_life)) (f.lit 9 1)) (f.of_int (pos t.current_life))

  unfoldable pub reset : ToolWear F → ToolWear F
  reset t = record t { current_life = 0; wear_rate = f.lit 0 1; region = initial_stable }

  -- Whatever the noise, an advanced tool's wear rate lies in [0, 2.5], its life has grown by the cycles
  -- and its maximal life is unchanged.
  pub advance_lem :
      (laws : IsOrdered F) (gauss : F → F) (t : ToolWear F) (cycles : ℕ)
      → f.le (f.lit 0 0) (f.lit 25 1) ≡ true
      → let t' = advance gauss t cycles in
        (f.le (f.lit 0 0) t'.wear_rate ≡ true)
        × (f.le t'.wear_rate (f.lit 25 1) ≡ true)
        × (t'.current_life ≡ t.current_life + cycles)
        × (t'.max_life ≡ t.max_life)
  unfolding advance
  advance_lem laws gauss t cycles range = ground (
    arith,
    clamp_bounds laws (f.lit 0 0) (f.lit 25 1) (f.add (f.lit 2 1) (gauss (f.lit 2 2))) range,
    clamp_bounds laws (f.lit 0 0) (f.lit 25 1)
        (wear_curve (f.div (f.of_int (pos (t.current_life + cycles))) (f.of_int (pos t.max_life)))
          (f.lit 5 1) (f.lit 3 1) (f.lit 3 1) (f.lit 5 1) (gauss (f.lit 3 2)))
        range,
    clamp_bounds laws (f.lit 0 0) (f.lit 25 1)
        (wear_curve (f.div (f.of_int (pos (t.current_life + cycles))) (f.of_int (pos t.max_life)))
          (f.lit 8 1) (f.lit 15 1) (f.lit 8 1) (f.lit 2 1) (gauss (f.lit 5 2)))
        range,
  )
