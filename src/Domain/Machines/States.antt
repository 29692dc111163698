-- ===== src/Domain/Machines/States.antt =====
-- mas/domain/machines.py: the states of a work center and its counters, over any use of it.
use manufacturing_mas.Prelude.{
  ℕ, ◌+◌, ◌<◌, ◌≡◌, ◌≢◌, refl, ◌⊎◌, inl, inr, Bool, true, false, [], arith,
}
use manufacturing_mas.Prelude.Int.{ℤ, pos, ◌≤ℤ◌, max_ℤ-min_ℤ_bounds}
use manufacturing_mas.Float.{Float}
use manufacturing_mas.Domain.Machines.WorkCenter.{
  MachineState, running, idle, warmup, setup, breakdown, maintenance, WorkCenter, is_stopped,
  execute_cycle, record_quality, trigger_breakdown, complete_repair, start_setup, complete_setup,
  set_speed,
}

-- What the simulation does to a work center.
pub data Action (F : Type 0) : Type 0 where
  cycles : (ℕ → F → F) → F → F → Action F
  judges : Bool → Action F
  breaks : F → Action F
  repairs : Action F
  sets_up : F → Action F
  finishes_setup : Action F
  speeds : ℤ → Action F

pub is_stopped_lem :
    (s : MachineState)
    → ((is_stopped s ≡ true) × ((s ≡ breakdown) ⊎ ((s ≡ maintenance) ⊎ (s ≡ setup))))
      ⊎ ((is_stopped s ≡ false) × ((s ≡ running) ⊎ ((s ≡ idle) ⊎ (s ≡ warmup))))
unfolding is_stopped
is_stopped_lem running = inr (refl, inl refl)
is_stopped_lem idle = inr (refl, inr (inl refl))
is_stopped_lem warmup = inr (refl, inr (inr refl))
is_stopped_lem breakdown = inl (refl, inl refl)
is_stopped_lem maintenance = inl (refl, inr (inl refl))
is_stopped_lem setup = inl (refl, inr (inr refl))

module _ {F : Type 0} ⦃f : Float F⦄ where
  unfoldable pub act : WorkCenter F → Action F → WorkCenter F
  unfolding execute_cycle record_quality trigger_breakdown complete_repair start_setup
      complete_setup set_speed
  act w (cycles gauss shift ambient) = (execute_cycle gauss w shift ambient).0
  act w (judges is_good) = record_quality w is_good
  act w (breaks repair) = trigger_breakdown w repair
  act w repairs = complete_repair w
  act w (sets_up duration) = start_setup w duration
  act w finishes_setup = complete_setup w
  act w (speeds pct) = set_speed w pct

  -- `Reach w v`: some sequence of actions leads from `w` to `v`.
  pub data Reach (w : WorkCenter F) : WorkCenter F → Type 0 where
    here : Reach w w
    next : {v : WorkCenter F} → Reach w v → (a : Action F) → Reach w (act v a)

  -- The counters agree and the speed is in range; a station is never in MAINTENANCE.
  pub record IsValid (w : WorkCenter F) : Type 0 where
    pub uptime : w.last_failure_cycle + w.uptime_since_repair ≡ w.total_cycles
    pub speed_low : pos 40 ≤ℤ w.speed_pct
    pub speed_high : w.speed_pct ≤ℤ pos 110
    pub in_use : w.state ≢ maintenance
    pub broken : w.state ≡ breakdown → 0 < w.failure_count

  act-IsValid : (w : WorkCenter F) (a : Action F) → IsValid w → IsValid (act w a)
  unfolding act
  act-IsValid w (cycles gauss shift ambient) v = ground (arith, v.uptime, v.speed_low, v.speed_high)
  act-IsValid w (judges true) v = ground (arith, v.uptime, v.speed_low, v.speed_high)
  act-IsValid w (judges false) v = ground (arith, v.uptime, v.speed_low, v.speed_high)
  act-IsValid w (speeds pct) v =
      let (low, high) = max_ℤ-min_ℤ_bounds (pos 40) (pos 110) pct (omega arith) in
      record {
        uptime = v.uptime;
        speed_low = low;
        speed_high = high;
        in_use = v.in_use;
        broken = v.broken;
      }
  act-IsValid w (breaks repair) v = ground (arith, v.uptime, v.speed_low, v.speed_high)
  act-IsValid w _ v = ground (arith, v.uptime, v.speed_low, v.speed_high)

  -- Whatever is done to a valid station, it stays valid: the cycle of the last failure and the cycles
  -- since add up to all cycles, the speed lies between 40 and 110 percent, a station in breakdown has a
  -- failure counted, and no station is ever in MAINTENANCE.
  pub Reach-IsValid : {w v : WorkCenter F} → Reach w v → IsValid w → IsValid v
  Reach-IsValid here h = h
  Reach-IsValid (next {v = v} r a) h = act-IsValid v a (Reach-IsValid r h)

  -- The actions that end a breakdown.
  pub data EndsBreakdown : Action F → Type 0 where
    by_repair : EndsBreakdown repairs
    by_setup : (duration : F) → EndsBreakdown (sets_up duration)
    by_setup_end : EndsBreakdown finishes_setup

  -- A station in breakdown stays there, with no cycle counted, under every action but a repair or a
  -- set-up.
  pub breakdown_stays :
      (w : WorkCenter F) (a : Action F)
      → w.state ≡ breakdown
      → EndsBreakdown a
        ⊎ (((act w a).state ≡ breakdown) × ((act w a).total_cycles ≡ w.total_cycles))
  unfolding act
  breakdown_stays w (cycles gauss shift ambient) e = inr (rw e (refl, refl))
  breakdown_stays w (judges true) e = inr (e, refl)
  breakdown_stays w (judges false) e = inr (e, refl)
  breakdown_stays w (breaks repair) e = inr (refl, refl)
  breakdown_stays w repairs e = inl by_repair
  breakdown_stays w (sets_up duration) e = inl (by_setup duration)
  breakdown_stays w finishes_setup e = inl by_setup_end
  breakdown_stays w (speeds pct) e = inr (e, refl)

  -- A cycle of a station: broken down, in maintenance or in set-up, it is left as it was and reads
  -- nothing; running, idle or warming up, it runs from then on, and one cycle
  -- is counted with the uptime, while the quality counters, the failures and the speed are untouched.
  pub execute_cycle_lem :
      (gauss : ℕ → F → F) (w : WorkCenter F) (shift ambient : F)
      → let (w', readings) = execute_cycle gauss w shift ambient in
        (((w.state ≡ breakdown) ⊎ ((w.state ≡ maintenance) ⊎ (w.state ≡ setup)))
          × (w' ≡ w)
          × (readings ≡ []))
        ⊎ (((w.state ≡ running) ⊎ ((w.state ≡ idle) ⊎ (w.state ≡ warmup)))
            × (w'.state ≡ running)
            × (w'.total_cycles ≡ w.total_cycles + 1)
            × (w'.uptime_since_repair ≡ w.uptime_since_repair + 1)
            × (w'.good_count ≡ w.good_count)
            × (w'.defect_count ≡ w.defect_count)
            × (w'.failure_count ≡ w.failure_count)
            × (w'.speed_pct ≡ w.speed_pct))
  unfolding execute_cycle
  execute_cycle_lem gauss w shift ambient = elim (is_stopped_lem w.state) [
    | inl (stopped, which) ↦ rw (stopped, execute_cycle) (inl (which, refl, refl))
    | inr (live, which) ↦
        rw (live, execute_cycle) (inr (which, refl, refl, refl, refl, refl, refl, refl))
  ]
