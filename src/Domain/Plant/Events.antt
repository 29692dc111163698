-- ===== src/Domain/Plant/Events.antt =====
-- mas/domain/business_events.py: the ring buffer of business events. The identifier and the wall clock
-- of an event come in as arguments; a payload's values are texts, numbers, flags and lists of texts.
use manufacturing_mas.Prelude.{
  ℕ, ◌≤◌, ◌≡◌, String, Bool, Option, List, [], ◌∷◌, ◌++◌, arith, ap, sym, ◌∙◌, append_nil,
  append_assoc, last_n-short, last_n-append, last_n-last_n, push_capped-last_n, false, ◌==◌,
  if◌then◌else◌, length, last_n, push_capped, length-push_capped,
}
use manufacturing_mas.Prelude.Dict.{Dict}

pub data BusinessEventType : Type 0 where
  factory_tick work_started work_complete inspection_verdict : BusinessEventType
  quality_escalation station_state_change material_event : BusinessEventType

pub data Value : Type 0 where
  text : String → Value
  number : ℕ → Value
  flag : Bool → Value
  texts : List String → Value

pub record BusinessEvent (F : Type 0) : Type 0 where
  pub event_id : String
  pub event_type : BusinessEventType
  pub logical_cycle : ℕ
  pub sim_time_sec : F
  pub event_time_wall_iso : String
  pub payload : Dict Value
  pub station_id : Option String
  pub lot_id : Option String
  pub sku : Option String

pub record BusinessEventStore (F : Type 0) : Type 0 where
  pub maxlen : ℕ
  pub q : List (BusinessEvent F)

module _ {F : Type 0} where
  unfoldable pub new_event_store : ℕ → BusinessEventStore F
  new_event_store maxlen = record { maxlen = maxlen; q = [] }

  -- `deque(maxlen=…)` forgets its oldest events.
  unfoldable pub emit : BusinessEventStore F → BusinessEvent F → BusinessEventStore F
  unfolding push_capped
  emit s e = record s { q = push_capped s.maxlen s.maxlen s.q e }

  -- `items[-n:]` is the whole list for n = 0.
  unfoldable pub tail : BusinessEventStore F → ℕ → List (BusinessEvent F)
  tail s n = if n == 0 then s.q else last_n n s.q

  abbrev pub emits : BusinessEventStore F → List (BusinessEvent F) → BusinessEventStore F
  emits s [] = s
  emits s (e ∷ es) = emits (emit s e) es

  emit-last_n :
      (s : BusinessEventStore F) (e : BusinessEvent F)
      → (emit s e).q ≡ last_n s.maxlen (s.q ++ e ∷ [])
  unfolding emit
  emit-last_n s e = push_capped-last_n s.maxlen s.q e

  kept :
      (s : BusinessEventStore F) (es : List (BusinessEvent F))
      → length s.q ≤ s.maxlen
      → (emits s es).q ≡ last_n s.maxlen (s.q ++ es)
  unfolding emit
  kept s [] bound = sym (ap (last_n s.maxlen) (append_nil s.q) ∙ last_n-short s.maxlen s.q bound)
  kept s (e ∷ es) bound =
      kept (emit s e) es (length-push_capped s.maxlen s.maxlen s.q e (omega arith))
      ∙ ap (λ q. last_n s.maxlen (q ++ es)) (emit-last_n s e)
      ∙ last_n-append s.maxlen s.maxlen (s.q ++ e ∷ []) es (omega arith)
      ∙ ap (last_n s.maxlen) (append_assoc s.q (e ∷ []) es)

  -- After any events, a buffer that held at most `maxlen` events holds the last `maxlen` of all the
  -- events that it held or that were emitted, in order, and a tail of `n` events, from 1 to `maxlen`,
  -- has the last `n` of them. But a tail of 0 events is the whole buffer.
  pub emits-last_n :
      (s : BusinessEventStore F) (es : List (BusinessEvent F)) (n : ℕ)
      → length s.q ≤ s.maxlen
      → 1 ≤ n
      → n ≤ s.maxlen
      → ((emits s es).q ≡ last_n s.maxlen (s.q ++ es))
        × (tail (emits s es) n ≡ last_n n (s.q ++ es))
        × (tail (emits s es) 0 ≡ last_n s.maxlen (s.q ++ es))
  unfolding tail
  emits-last_n s es n bound low high =
      let all = kept s es bound in
      let apart : (n == 0) ≡ false = ground arith in
      (all, rw (apart, all) (last_n-last_n n s.maxlen (s.q ++ es) high), all)
