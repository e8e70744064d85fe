-- ===== src/Validator/Reruns.antt =====
-- How often a task runs (`EventHandler` of include/cryptowallet/validator.h).
use cosicoin.Base.{
  ℕ, zero, suc, ◌≡◌, refl, sym, ◌∙◌, List, [], ◌∷◌, ◌++◌, arith, replicate, length, nat_eq, ap,
}
use mathlib.Core.List.{append_assoc, append-nil}
use cosicoin.Base.Dict.{lookup, insert, at_or, lookup-insert_self, Dict}
use cosicoin.Base.Result.{Result, ok, ◌>>=◌, >>=-eq-ok}
use cosicoin.Validator.Events.{
  Event, event_code, Task, EventHandler, empty_handler, publish_event, subscriber_event,
  run_in_loop, run_tasks, event_process, event_rounds, process_list,
}

module _ {S : Type 0} where
  -- The tasks are registered one after the other, before the handler's thread takes an event.
  unfoldable pub register_all : Event → List (Task S) → EventHandler S → EventHandler S
  register_all e [] q = q
  register_all e (f ∷ fs) q = register_all e fs (run_in_loop e f q)

  -- All the tasks, that many times.
  unfoldable pub repeat_tasks : ℕ → List (Task S) → S → Result S
  repeat_tasks zero fs s = ok s
  repeat_tasks (suc n) fs s = do s' ← run_tasks fs s; repeat_tasks n fs s'

  register_all-publist :
      (e : Event) (fs : List (Task S)) (q : EventHandler S)
      → (register_all e fs q).publist ≡ q.publist ++ replicate (length fs) e
  unfolding register_all run_in_loop publish_event subscriber_event
  register_all-publist e [] q = sym (append-nil q.publist)
  register_all-publist e (f ∷ fs) q =
      register_all-publist e fs (run_in_loop e f q)
      ∙ append_assoc q.publist (e ∷ []) (replicate (length fs) e)

  at_or-insert_self :
      (k : ℕ) (fs : List (Task S)) (m : Dict ℕ (List (Task S))) → at_or [] k (insert k fs m) ≡ fs
  at_or-insert_self k fs m = ground (arith, lookup-insert_self k fs m)

  register_all-subs :
      (e : Event) (fs : List (Task S)) (q : EventHandler S)
      → at_or [] (event_code e) (register_all e fs q).subs_map
        ≡ at_or [] (event_code e) q.subs_map ++ fs
  unfolding register_all run_in_loop publish_event subscriber_event
  register_all-subs e [] q = sym (append-nil (at_or [] (event_code e) q.subs_map))
  register_all-subs e (f ∷ fs) q =
      let here = at_or [] (event_code e) q.subs_map in
      register_all-subs e fs (run_in_loop e f q)
      ∙ ap (λ l. l ++ fs) (at_or-insert_self (event_code e) (here ++ f ∷ []) q.subs_map)
      ∙ append_assoc here (f ∷ []) fs

  event_process_run :
      (e : Event) (fs : List (Task S)) (es : List Event) (q : EventHandler S) (s s' : S)
      → q.publist ≡ e ∷ es
      → at_or [] (event_code e) q.subs_map ≡ fs
      → run_tasks fs s ≡ ok s'
      → event_process q s ≡ ok (record q { publist = es }, s')
  unfolding event_process process_list
  event_process_run e fs es q s s' p g r = ap (λ l. process_list l q s) p ∙ rw (g, r) refl

  rounds_repeat :
      (n : ℕ) (e : Event) (fs : List (Task S)) (q : EventHandler S) (s s' : S)
      → q.publist ≡ replicate n e
      → at_or [] (event_code e) q.subs_map ≡ fs
      → repeat_tasks n fs s ≡ ok s'
      → event_rounds n q s ≡ ok (record q { publist = [] }, s')
  unfolding event_rounds repeat_tasks event_process
  rounds_repeat zero e fs q s s' p g r = ground arith
  rounds_repeat (suc n) e fs q s s' p g r =
      let (s1, a, b) = >>=-eq-ok (run_tasks fs s) _ r in
      rw (event_process_run e fs (replicate n e) q s s1 p g a)
        (rounds_repeat n e fs (record q { publist = replicate n e }) s1 s' refl g b)

  -- When a number of tasks for one event are registered before the handler's thread comes to them, and
  -- no run throws, every one of them runs that many times: a task is subscribed for good, and each
  -- publication of the event runs all its tasks.
  pub event_rounds_rerun :
      (e : Event) (fs : List (Task S)) (s s' : S)
      → repeat_tasks (length fs) fs s ≡ ok s'
      → (q : EventHandler S) × (event_rounds (length fs) (register_all e fs empty_handler) s
          ≡ ok (q, s'))
        × (q.publist ≡ [])
  unfolding lookup
  event_rounds_rerun e fs s s' r =
      let q = register_all e fs empty_handler in
      (
        record q { publist = [] },
        rounds_repeat (length fs) e fs q s s' (register_all-publist e fs empty_handler)
            (register_all-subs e fs empty_handler) r,
        refl,
      )
