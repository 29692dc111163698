-- ===== src/Domain/Plant/Shift.antt =====
-- mas/domain/environment.py: `ShiftManager`.
use manufacturing_mas.Prelude.{
  ℕ, zero, suc, ◌+◌, ◌/◌, ◌%◌, ◌<◌, ◌≤◌, ◌≡◌, refl, inl, inr, arith, leb, if◌then◌else◌, Bool-cases,
}
use manufacturing_mas.Prelude.Int.{pos}
use manufacturing_mas.Float.{Float}

pub data Shift : Type 0 where
  day_a day_b night : Shift

pub record ShiftInfo (F : Type 0) : Type 0 where
  pub shift : Shift
  pub operator_skill : F
  pub fatigue_factor : F
  pub hour_in_shift : ℕ

pub record ShiftManager : Type 0 where
  pub current_idx : ℕ
  pub hour_in_shift : ℕ
  pub shift_cycle_count : ℕ
  pub shift_changes : ℕ

unfoldable pub new_shift_manager : ShiftManager
new_shift_manager = record {
  current_idx = 0;
  hour_in_shift = 0;
  shift_cycle_count = 0;
  shift_changes = 0;
}

-- `self._shifts[idx]`; `runs_lem` keeps the index below 3.
abbrev shift_at : ℕ → Shift
shift_at zero = day_a
shift_at (suc zero) = day_b
shift_at _ = night

module _ {F : Type 0} ⦃f : Float F⦄ where
  unfoldable pub skill : Shift → F
  skill day_a = f.lit 105 2
  skill day_b = f.lit 95 2
  skill night = f.lit 90 2

  unfoldable pub fatigue : Shift → F
  fatigue day_a = f.lit 3 2
  fatigue day_b = f.lit 5 2
  fatigue night = f.lit 8 2

  unfoldable pub effective_factor : ShiftInfo F → F
  effective_factor s =
      let fatigue =
        f.add (f.lit 10 1)
          (f.mul s.fatigue_factor (f.div (f.of_int (pos s.hour_in_shift)) (f.lit 8 0))) in
      f.mul s.operator_skill fatigue

  unfoldable pub current : ShiftManager → ShiftInfo F
  unfolding skill fatigue
  current m =
      let s = shift_at m.current_idx in
      record {
        shift = s;
        operator_skill = skill s;
        fatigue_factor = fatigue s;
        hour_in_shift = m.hour_in_shift;
      }

-- With 40 cycles per hour, the default, which every call uses. There are three shifts.
unfoldable pub advance : ShiftManager → ShiftManager
advance m =
    let count = m.shift_cycle_count + 1 in
    let hour = count / 40 in
    if leb 8 hour
    then record m {
      current_idx = (m.current_idx + 1) % 3;
      hour_in_shift = 0;
      shift_cycle_count = 0;
      shift_changes = m.shift_changes + 1;
    }
    else record m { hour_in_shift = hour; shift_cycle_count = count }

unfoldable pub runs : ℕ → ShiftManager
unfolding advance new_shift_manager
runs zero = new_shift_manager
runs (suc n) = advance (runs n)

-- After `n` cycles of a new manager, the shift has changed once for each 320 cycles, the shifts take
-- turns in their order, and the hour of the shift is that of the cycles since the last change, below 8.
pub runs_lem :
    (n : ℕ)
    → let m = runs n in
      (m.shift_changes ≡ n / 320)
      × (m.shift_cycle_count ≡ n % 320)
      × (m.current_idx ≡ n / 320 % 3)
      × (m.hour_in_shift ≡ n % 320 / 40)
unfolding runs
runs_lem zero = (refl, refl, refl, refl)
runs_lem (suc n) =
    let (changes, count, idx, hour) = runs_lem n in
    elim (Bool-cases (leb 8 (((runs n).shift_cycle_count + 1) / 40))) [
      | inl over ↦
          let full : 8 ≤ ((runs n).shift_cycle_count + 1) / 40 = ground (arith, over) in
          rw (over, advance) (omega arith, omega arith, omega arith, omega arith)
      | inr within ↦
          let part : ((runs n).shift_cycle_count + 1) / 40 < 8 = ground (arith, within) in
          rw (within, advance) (omega arith, omega arith, omega arith, omega arith)
    ]
