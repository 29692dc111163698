-- ===== src/Agents/Roles/Quality.antt =====
-- mas/agents/quality_agent.py: the state, the statistics and `sense`, with mas/agents/qa_sub/spc.py.
-- The lines of the reasoning log and the views for the dashboard are left out. Where the code raises,
-- the result is none. A power of 2 is a product, one of 0.5 a root.
pub mod Sense
pub mod Unmonitored
pub mod Decide
use Prim.Native.String.{◌++◌ as append}
use manufacturing_mas.Prelude.{
  ℕ, zero, suc, ◌+◌, ◌-◌, ◌/◌, min, String, Bool, true, false, ◌&&◌, ◌||◌, Option, none, some, List,
  [], ◌∷◌, ◌++◌, leb, ltb, if◌then◌else◌, length, drop, last_n, push_capped,
}
use manufacturing_mas.Prelude.Int.{pos}
use manufacturing_mas.Prelude.Dict.{Dict, lookup, insert}
use manufacturing_mas.Float.{Float, fmin, neg}
use manufacturing_mas.Protocol.Value.{Fields}
use manufacturing_mas.Agents.Roles.Base.{BaseAgent, new_agent}

-- What the agent reads of a station in the snapshot: its name, the quality of its effectiveness and the
-- values of its sensors.
pub record QualityView (F : Type 0) : Type 0 where
  pub name : String
  pub quality : F
  pub values : Dict F

pub record QualityAgent (F : Type 0) : Type 0 where
  pub base : BaseAgent (Fields F)
  pub measurement_history : Dict (List F)
  pub cpk_history : Dict (List F)
  pub inspection_mode : String

pub record CpkInfo (F : Type 0) : Type 0 where
  pub cpk : F
  pub trend : String
  pub status : String

pub record Violation : Type 0 where
  pub station : String
  pub sensor : String
  pub rule : String
  pub key : String

pub record RiskStation (F : Type 0) : Type 0 where
  pub station : String
  pub quality_rate : F
  pub name : String

pub record QualityObs (F : Type 0) : Type 0 where
  pub cpk_status : Dict (CpkInfo F)
  pub spc_violations : List Violation
  pub defect_trend : String
  pub yield_by_station : Dict F
  pub quality_risk_stations : List (RiskStation F)

module _ {F : Type 0} where
  unfoldable pub new_quality_agent : QualityAgent F
  unfolding new_agent
  new_quality_agent = record {
    base = new_agent "QA";
    measurement_history = [];
    cpk_history = [];
    inspection_mode = "표준";
  }

  abbrev pub known : String → Dict (List F) → List F
  known key d = elim (lookup key d) [ none ↦ [] | some xs ↦ xs ]

  -- `d[key].append(x)`, of which the last `cap` are kept.
  unfoldable pub keep_last : ℕ → String → F → Dict (List F) → Dict (List F)
  unfolding lookup insert push_capped
  keep_last cap key x d = insert key (push_capped cap cap (known key d) x) d

  abbrev every : (F → Bool) → List F → Bool
  every p [] = true
  every p (x ∷ rest) = p x && every p rest

  abbrev count : (F → Bool) → List F → ℕ
  count p [] = 0
  count p (x ∷ rest) = let others = count p rest in if p x then others + 1 else others

  abbrev take : ℕ → List F → List F
  take zero xs = []
  take (suc n) [] = []
  take (suc n) (x ∷ xs) = x ∷ take n xs

module _ {F : Type 0} ⦃f : Float F⦄ where
  unfoldable pub spec_limits : Dict (F × F)
  spec_limits =
      ("WC-01.진동", (f.lit 0 0, f.lit 50 1))
      ∷ ("WC-01.금형간극", (f.lit 8 2, f.lit 28 2))
      ∷ ("WC-02.스프링백", (f.lit 0 0, f.lit 15 1))
      ∷ ("WC-03.너겟직경", (f.lit 45 1, f.lit 70 1))
      ∷ ("WC-04.경도(HRC)", (f.lit 52 0, f.lit 64 0))
      ∷ ("WC-05.치수편차", (neg (f.lit 5 2), f.lit 5 2))
      ∷ ("WC-05.표면거칠기", (f.lit 0 0, f.lit 32 1))
      ∷ ("WC-06.체결토크", (f.lit 20 0, f.lit 30 0))
      ∷ ("WC-06.비전점수", (f.lit 85 0, f.lit 100 0))
      ∷ []

  abbrev total : F → List F → F
  total acc [] = acc
  total acc (x ∷ rest) = total (f.add acc x) rest

  -- `sum(xs) / n`
  abbrev mean_of : List F → ℕ → F
  mean_of xs n = f.div (total (f.of_int (pos 0)) xs) (f.of_int (pos n))

  abbrev squares : F → List F → List F
  squares mean [] = []
  squares mean (x ∷ rest) = f.mul (f.sub x mean) (f.sub x mean) ∷ squares mean rest

  abbrev deviation : F → List F → ℕ → F
  deviation mean xs n = f.sqrt (mean_of (squares mean xs) n)

  unfoldable pub calc_cpk : Dict (List F) → String → F
  unfolding lookup spec_limits
  calc_cpk history key =
      let series = known key history in
      let limits : F × F = elim (lookup key spec_limits) [
        | none ↦ (f.of_int (pos 0), f.infinity)
        | some l ↦ l
      ] in
      let recent = last_n 30 series in
      let mean = mean_of recent (length recent) in
      let std = deviation mean recent (length recent) in
      let spread = f.mul (f.of_int (pos 3)) std in
      let cpu =
        if f.lt limits.1 f.infinity then f.div (f.sub limits.1 mean) spread else f.lit 20 1 in
      let cpl =
        if f.lt (neg f.infinity) limits.0 then f.div (f.sub mean limits.0) spread else f.lit 20 1 in
      if ltb (length series) 10 || f.lt std (f.lit 1 4) then f.lit 20 1 else fmin cpu cpl

  unfoldable pub cpk_trend : Dict (List F) → String → String
  unfolding lookup
  cpk_trend history key =
      let recent = last_n 10 (known key history) in
      let half = length recent / 2 in
      let first_half = mean_of (take half recent) half in
      let second_half = mean_of (drop half recent) (length recent - half) in
      let diff = f.sub second_half first_half in
      if ltb (length (known key history)) 5 || ltb (length recent) 3
      then "안정"
      else if f.lt diff (neg (f.lit 1 1))
      then "하강"
      else if f.lt (f.lit 1 1) diff
      then "상승"
      else "안정"

  abbrev diffs : List F → List F
  diffs [] = []
  diffs (x ∷ []) = []
  diffs (x ∷ y ∷ rest) = f.sub y x ∷ diffs (y ∷ rest)

  unfoldable pub check_run_rules : Dict (List F) → String → List String
  unfolding lookup
  check_run_rules history key =
      let series = known key history in
      let recent = last_n 9 series in
      let mean = mean_of (last_n 30 series) (min 30 (length series)) in
      let std = deviation mean (last_n 30 series) (min 30 (length series)) in
      let nought = f.of_int (pos 0) in
      let above = every (λ x. f.lt nought (f.sub x mean)) (last_n 7 recent) in
      let below = every (λ x. f.lt (f.sub x mean) nought) (last_n 7 recent) in
      let up = every (λ d. f.lt nought d) (last_n 6 (diffs recent)) in
      let down = every (λ d. f.lt d nought) (last_n 6 (diffs recent)) in
      let outside =
        count (λ x. f.lt (f.mul (f.of_int (pos 2)) std) (f.abs (f.sub x mean))) recent in
      let rule2 : List String = if above || below then "규칙2: 연속 7점 한쪽" ∷ [] else [] in
      let rule3 : List String =
        if leb 9 (length recent) && (up || down) then "규칙3: 연속 6점 증가/감소" ∷ [] else [] in
      let rule4 : List String = if leb 2 outside then "규칙4: 3점 중 2점 2σ 밖" ∷ [] else [] in
      if ltb (length series) 9 || f.lt std (f.lit 1 4) then [] else rule2 ++ rule3 ++ rule4
