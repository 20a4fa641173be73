-- ===== src/AnchorQueue.antt =====
-- chain/anchor.py: the queue in front of the anchoring backend. Taking an item and appending its
-- receipt are two steps, of the background thread and of `drain_now`, so that any interleaving of
-- the two with `submit` is a list of steps. The backend is an argument: `none` is an exception.
use mathlib.Core.List.{append-nil, append_assoc}
use trustmem.Prelude.{
  ℕ, zero, suc, ◌+◌, String, Bool, false, Option, none, some, List, [], ◌∷◌, ◌++◌, ◌≡◌, refl,
  length, map, ap, ◌∙◌, length-append, arith,
}

abbrev pub Bytes : Type 0
Bytes = List ℕ

pub record AnchorReceipt : Type 0 where
  pub tx_id : String
  pub verified : Bool
  pub root : Option Bytes

pub data Thread : Type 0 where
  worker drainer : Thread

module _ {Meta : Type 0} (backend : Bytes → Meta → Option AnchorReceipt) where
  -- What each thread holds between the two steps.
  pub record AnchorQueue : Type 0 where
    pub waiting : List (Bytes × Meta)
    pub held_by_worker : Option (Bytes × Meta)
    pub held_by_drainer : Option (Bytes × Meta)
    pub receipts : List AnchorReceipt

  abbrev pub empty_queue : AnchorQueue
  empty_queue = record {
    waiting = [];
    held_by_worker = none;
    held_by_drainer = none;
    receipts = [];
  }

  unfoldable pub submit : AnchorQueue → Bytes → Meta → AnchorQueue
  submit q root details = record q { waiting = q.waiting ++ ((root, details) ∷ []) }

  -- `_send`: an exception of the backend is a receipt that is not verified.
  unfoldable pub send : Bytes × Meta → AnchorReceipt
  send (root, details) = elim (backend root details) [
    | none ↦ record { tx_id = ""; verified = false; root = some root }
    | some receipt ↦ receipt
  ]

  -- A thread that holds nothing takes the first item, if there is one.
  abbrev take_for :
      Option (Bytes × Meta) → List (Bytes × Meta) → Option (Bytes × Meta) × List (Bytes × Meta)
  take_for none (item ∷ rest) = (some item, rest)
  take_for none [] = (none, [])
  take_for (some held) waiting = (some held, waiting)

  unfoldable pub take : Thread → AnchorQueue → AnchorQueue
  take worker q = record q {
    held_by_worker = (take_for q.held_by_worker q.waiting).0;
    waiting = (take_for q.held_by_worker q.waiting).1;
  }
  take drainer q = record q {
    held_by_drainer = (take_for q.held_by_drainer q.waiting).0;
    waiting = (take_for q.held_by_drainer q.waiting).1;
  }

  abbrev receipt_of : Option (Bytes × Meta) → List AnchorReceipt
  receipt_of none = []
  receipt_of (some item) = send item ∷ []

  unfoldable pub append : Thread → AnchorQueue → AnchorQueue
  unfolding send
  append worker q = record q {
    held_by_worker = none;
    receipts = q.receipts ++ receipt_of q.held_by_worker;
  }
  append drainer q = record q {
    held_by_drainer = none;
    receipts = q.receipts ++ receipt_of q.held_by_drainer;
  }

  pub data Step : Type 0 where
    submits : Bytes → Meta → Step
    takes appends : Thread → Step

  unfoldable pub step : AnchorQueue → Step → AnchorQueue
  unfolding submit take append
  step q (submits root details) = submit q root details
  step q (takes t) = take t q
  step q (appends t) = append t q

  unfoldable pub run : AnchorQueue → List Step → AnchorQueue
  unfolding step
  run q [] = q
  run q (s ∷ steps) = run (step q s) steps

  abbrev held : Option (Bytes × Meta) → ℕ
  held none = 0
  held (some item) = 1

  -- The roots that have a receipt, are held by a thread or wait.
  abbrev pub accounted : AnchorQueue → ℕ
  accounted q =
      length q.receipts + (held q.held_by_worker + (held q.held_by_drainer + length q.waiting))

  abbrev pub submissions : List Step → ℕ
  submissions [] = 0
  submissions (submits root details ∷ steps) = suc (submissions steps)
  submissions (takes t ∷ steps) = submissions steps
  submissions (appends t ∷ steps) = submissions steps

  taken :
      (h : Option (Bytes × Meta)) (w : List (Bytes × Meta))
      → held ((take_for h w).0) + length ((take_for h w).1) ≡ held h + length w
  taken none [] = refl
  taken none (item ∷ w) = omega arith
  taken (some item) w = refl

  appended :
      (h : Option (Bytes × Meta)) (r : List AnchorReceipt)
      → length (r ++ receipt_of h) ≡ length r + held h
  appended none r = omega (arith, length-append r [])
  appended (some item) r = omega (arith, length-append r (send item ∷ []))

  step-accounted :
      (q : AnchorQueue) (s : Step) → accounted (step q s) ≡ accounted q + submissions (s ∷ [])
  unfolding step submit take append
  step-accounted q (submits root details) =
      omega (arith, length-append q.waiting ((root, details) ∷ []))
  step-accounted q (takes worker) = omega (arith, taken q.held_by_worker q.waiting)
  step-accounted q (takes drainer) = omega (arith, taken q.held_by_drainer q.waiting)
  step-accounted q (appends worker) = omega (arith, appended q.held_by_worker q.receipts)
  step-accounted q (appends drainer) = omega (arith, appended q.held_by_drainer q.receipts)

  -- However the threads interleave, and whether or not the backend fails: the number of roots that
  -- have a receipt, are held or wait grows by exactly the number of submissions.
  pub run-accounted :
      (q : AnchorQueue) (steps : List Step)
      → accounted (run q steps) ≡ accounted q + submissions steps
  unfolding run
  run-accounted q [] = omega arith
  run-accounted q (submits root details ∷ steps) = omega (
    arith,
    run-accounted (step q (submits root details)) steps,
    step-accounted q (submits root details),
  )
  run-accounted q (takes t ∷ steps) =
      omega (arith, run-accounted (step q (takes t)) steps, step-accounted q (takes t))
  run-accounted q (appends t ∷ steps) =
      omega (arith, run-accounted (step q (appends t)) steps, step-accounted q (appends t))

  -- The rounds of `drain_now`, which end where nothing waits.
  unfoldable pub rounds : ℕ → AnchorQueue → AnchorQueue
  unfolding take append
  rounds zero q = q
  rounds (suc n) q = rounds n (append drainer (take drainer q))

  unfoldable pub drain_now : AnchorQueue → AnchorQueue × List AnchorReceipt
  unfolding rounds
  drain_now q = let drained = rounds (length q.waiting) q in (drained, drained.receipts)

  rounds-send :
      (waiting : List (Bytes × Meta)) (w : Option (Bytes × Meta)) (receipts : List AnchorReceipt)
      → rounds (length waiting) (record {
        waiting = waiting;
        held_by_worker = w;
        held_by_drainer = none;
        receipts = receipts;
      })
        ≡ record {
          waiting = [];
          held_by_worker = w;
          held_by_drainer = none;
          receipts = receipts ++ map send waiting;
        }
  unfolding rounds
  rounds-send [] w receipts = rw (append-nil receipts) refl
  rounds-send (item ∷ waiting) w receipts =
      rw
        (
          rounds-send waiting w (receipts ++ (send item ∷ [])),
          append_assoc receipts (send item ∷ []) (map send waiting),
        )
        refl

  -- Where `drain_now` holds nothing at its start and no other thread runs meanwhile, it ends with
  -- nothing waiting, and every root that waited has its receipt, in the order of submission and
  -- behind the receipts that were there, whether or not the backend fails.
  pub drain_now-receipts :
      (q : AnchorQueue)
      → q.held_by_drainer ≡ none
      → ((drain_now q).0.waiting ≡ []) × ((drain_now q).1 ≡ q.receipts ++ map send q.waiting)
  unfolding drain_now
  drain_now-receipts q idle =
      let drained = rounds-send q.waiting q.held_by_worker q.receipts in
      let same : rounds (length q.waiting) q ≡ _ =
        ap
          (λ (h : Option (Bytes × Meta)).
            rounds (length q.waiting) (record q { held_by_drainer = h }))
          idle
        ∙ drained in
      (ap (λ (r : AnchorQueue). r.waiting) same, ap (λ (r : AnchorQueue). r.receipts) same)
