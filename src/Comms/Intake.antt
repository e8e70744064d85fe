-- ===== src/Comms/Intake.antt =====
-- The server is always ready, and its queues lose and repeat nothing (lib/comms/server.cc).
use cosicoin.Base.{
  ℕ, zero, suc, ◌+◌, ◌≡◌, refl, ◌∙◌, sym, Bool, true, false, some, List, [], ◌∷◌, ◌++◌, get_elem?,
  erase_at, if◌then◌else◌, arith, Option-cases, inl, inr,
}
use mathlib.Core.List.{append_assoc, append-nil}
use cosicoin.Base.Result.{ok}
use cosicoin.Comms.Server.{
  CallStatus, create, start_process, finish, new_call, set_status, Intake, first_intake, proceed,
  take_all,
}

-- How many calls wait for a request.
unfoldable pub waiting : List CallStatus → ℕ
waiting [] = 0
waiting (create ∷ cs) = waiting cs
waiting (start_process ∷ cs) = waiting cs + 1
waiting (finish ∷ cs) = waiting cs

-- No call is in its first state.
unfoldable pub none_create : List CallStatus → Bool
none_create [] = true
none_create (create ∷ cs) = false
none_create (start_process ∷ cs) = none_create cs
none_create (finish ∷ cs) = none_create cs

calls-append :
    (cs : List CallStatus)
    → none_create cs ≡ true
    → (waiting (cs ++ start_process ∷ []) ≡ waiting cs + 1)
      × (none_create (cs ++ start_process ∷ []) ≡ true)
unfolding waiting none_create
calls-append [] n = ground arith
calls-append (create ∷ cs) n = absurd (ground arith)
calls-append (start_process ∷ cs) n = ground (arith, calls-append cs n)
calls-append (finish ∷ cs) n = ground (arith, calls-append cs n)

-- A request arrives: its call finishes, and a new one waits.
calls_finish :
    (cs : List CallStatus) (i : ℕ)
    → get_elem? cs i ≡ some start_process
    → none_create cs ≡ true
    → (waiting (set_status i finish (new_call cs)) ≡ waiting cs)
      × (none_create (set_status i finish (new_call cs)) ≡ true)
unfolding waiting none_create set_status new_call
calls_finish [] i e n = absurd (ground arith)
calls_finish (create ∷ cs) i e n = absurd (ground arith)
calls_finish (start_process ∷ cs) zero e n = ground (arith, calls-append cs n)
calls_finish (start_process ∷ cs) (suc i) e n = ground (arith, calls_finish cs i e n)
calls_finish (finish ∷ cs) zero e n = absurd (ground arith)
calls_finish (finish ∷ cs) (suc i) e n = ground (arith, calls_finish cs i e n)

calls_deleted :
    (cs : List CallStatus) (i : ℕ)
    → get_elem? cs i ≡ some finish
    → none_create cs ≡ true
    → (waiting (erase_at cs i) ≡ waiting cs) × (none_create (erase_at cs i) ≡ true)
unfolding waiting none_create
calls_deleted [] i e n = absurd (ground arith)
calls_deleted (create ∷ cs) i e n = absurd (ground arith)
calls_deleted (start_process ∷ cs) zero e n = absurd (ground arith)
calls_deleted (start_process ∷ cs) (suc i) e n = ground (arith, calls_deleted cs i e n)
calls_deleted (finish ∷ cs) zero e n = ground arith
calls_deleted (finish ∷ cs) (suc i) e n = ground (arith, calls_deleted cs i e n)

none_create-get :
    (cs : List CallStatus) (i : ℕ) → none_create cs ≡ true → ¬ (get_elem? cs i ≡ some create)
unfolding none_create
none_create-get [] i n e = ground arith
none_create-get (create ∷ cs) i n e = ground arith
none_create-get (start_process ∷ cs) zero n e = ground arith
none_create-get (start_process ∷ cs) (suc i) n e = none_create-get cs i n e
none_create-get (finish ∷ cs) zero n e = ground arith
none_create-get (finish ∷ cs) (suc i) n e = none_create-get cs i n e

module _ {A : Type 0} where
  -- The intakes that the program reaches, with the requests queued so far and those handed out. The
  -- completions come in any order, and the queue is emptied at any time.
  pub data Serves : Intake A → List A → List A → Type 0 where
    boot : Serves first_intake [] []
    completes :
        {s s' : Intake A} {received handed : List A} {queued : Bool} (i : ℕ) (a : A)
        → Serves s received handed
        → proceed i a s ≡ ok (queued, s')
        → Serves s' (if queued then received ++ a ∷ [] else received) handed
    drains :
        {s : Intake A} {received handed : List A}
        → Serves s received handed
        → Serves (take_all [] s).2 received (handed ++ (take_all [] s).1)

  pub record IsReady (s : Intake A) (received handed : List A) : Type 0 where
    pub one_waits : waiting s.calls ≡ 1
    pub started : none_create s.calls ≡ true
    pub in_order : received ≡ handed ++ s.queue

  proceed-IsReady :
      (s s' : Intake A) (received handed : List A) (queued : Bool) (i : ℕ) (a : A)
      → IsReady s received handed
      → proceed i a s ≡ ok (queued, s')
      → IsReady s' (if queued then received ++ a ∷ [] else received) handed
  unfolding proceed
  proceed-IsReady s s' received handed queued i a r e = elim (Option-cases (get_elem? s.calls i)) [
    | inl dangling ↦ absurd (ground arith)
    | inr (create, found) ↦ absurd (none_create-get s.calls i r.started found)
    | inr (start_process, found) ↦
        let (one, started) = calls_finish s.calls i found r.started in
        ground (arith, r, one, started, append_assoc handed s.queue (a ∷ []))
    | inr (finish, found) ↦
        let (one, started) = calls_deleted s.calls i found r.started in
        ground (arith, r, one, started)
  ]

  -- Whatever the order of requests, completions and calls of `getMessages` or `getTransactions`:
  -- exactly one call waits for the next request, and the requests handed out and those still queued
  -- are those received, each once and in order.
  pub Serves-IsReady :
      {s : Intake A} {received handed : List A}
      → Serves s received handed
      → IsReady s received handed
  unfolding waiting none_create take_all
  Serves-IsReady boot = record { one_waits = refl; started = refl; in_order = refl }
  Serves-IsReady
        (completes {s = s} {s' = s'} {received = r} {handed = g} {queued = q} i a before e) =
      proceed-IsReady s s' r g q i a (Serves-IsReady before) e
  Serves-IsReady (drains {s = s} {received = r} {handed = g} before) =
      let v = Serves-IsReady before in
      record {
        one_waits = v.one_waits;
        started = v.started;
        in_order = v.in_order ∙ sym (append-nil (g ++ s.queue));
      }
