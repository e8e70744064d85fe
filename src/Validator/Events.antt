-- ===== src/Validator/Events.antt =====
-- The event handler (include/cryptowallet/validator.h): published events and the tasks subscribed to
-- them. The state that the tasks work on is a parameter. `EventProcess` waits while nothing is
-- published; here it leaves the state as it is.
use cosicoin.Base.{ℕ, zero, suc, List, [], ◌∷◌, ◌++◌, nat_eq}
use cosicoin.Base.Dict.{Dict, insert, at_or}
use cosicoin.Base.Result.{Result, ok, ◌>>=◌}

pub data Event : Type 0 where
  none_event sync tx propose_event db_store : Event

-- The number that the source gives to an event, the key of the map.
unfoldable pub event_code : Event → ℕ
event_code none_event = 0
event_code sync = 1
event_code tx = 2
event_code propose_event = 4
event_code db_store = 8

module _ (S : Type 0) where
  -- `HandleEvent`: it may throw.
  abbrev pub Task : Type 0
  Task = S → Result S

  pub record EventHandler : Type 0 where
    pub publist : List Event
    pub subs_map : Dict ℕ (List Task)

module _ {S : Type 0} where
  abbrev pub empty_handler : EventHandler S
  empty_handler = record { publist = []; subs_map = [] }

  -- `PublishEvent`
  unfoldable pub publish_event : Event → EventHandler S → EventHandler S
  publish_event e q = record q { publist = q.publist ++ e ∷ [] }

  -- `SubscriberEvent`
  unfoldable pub subscriber_event : Event → Task S → EventHandler S → EventHandler S
  subscriber_event e f q = record q {
    subs_map = insert (event_code e) (at_or [] (event_code e) q.subs_map ++ f ∷ []) q.subs_map;
  }

  -- `runInLoop`
  unfoldable pub run_in_loop : Event → Task S → EventHandler S → EventHandler S
  unfolding publish_event
  run_in_loop e f q = subscriber_event e f (publish_event e q)

  -- The loop over the subscribers of one event.
  unfoldable pub run_tasks : List (Task S) → S → Result S
  run_tasks [] s = ok s
  run_tasks (f ∷ fs) s = do s' ← f s; run_tasks fs s'

  -- What one round of `EventProcess` does with the list of events.
  unfoldable pub process_list : List Event → EventHandler S → S → Result (EventHandler S × S)
  process_list [] q s = ok (q, s)
  process_list (e ∷ es) q s = do
    s' ← run_tasks (at_or [] (event_code e) q.subs_map) s
    ok (record q { publist = es }, s')

  -- One round of `EventProcess`.
  unfoldable pub event_process : EventHandler S → S → Result (EventHandler S × S)
  unfolding process_list
  event_process q s = process_list q.publist q s

  -- That many rounds.
  unfoldable pub event_rounds : ℕ → EventHandler S → S → Result (EventHandler S × S)
  event_rounds zero q s = ok (q, s)
  event_rounds (suc n) q s = do (q', s') ← event_process q s; event_rounds n q' s'
