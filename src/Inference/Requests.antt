-- ===== src/Inference/Requests.antt =====
-- `InferenceServer._handle_requests` (elefant/policy_model/inference.py): a thread takes frames
-- from a queue, drops all but the newest, and answers it. A `none` in the queue asks it to stop.
use p2p_rdt.Common.{ℕ, ◌≡◌, Bool, true, false, String, List, [], ◌∷◌, ◌++◌, Option, none, some}
use p2p_rdt.Common.Results.{Result, ok, raise}
use p2p_rdt.Inference.Base.{Inference}

-- A frame on the queue.
pub record Item (Frame : Type 0) : Type 0 where
  pub frame : Frame
  pub id : ℕ
  pub start_time : ℕ

-- What is sent back for a frame.
pub record Reply (Action : Type 0) : Type 0 where
  pub id : ℕ
  pub start_time : ℕ
  pub action : Action

-- Where the thread is: at the test of `running`, at the first `get`, with a frame in hand, or after
-- the loop.
pub data Place (Frame : Type 0) : Type 0 where
  looping waiting stopped : Place Frame
  holding : Item Frame → Place Frame

-- `sent` is all that was ever put on the queue, and `out` all that was handed to the callback.
pub record State (S Frame Action : Type 0) : Type 0 where
  pub running : Bool
  pub queue : List (Option (Item Frame))
  pub place : Place Frame
  pub inference_state : S
  pub shared_text : Option String
  pub out : List (Option (Reply Action))
  pub sent : List (Option (Item Frame))

module _ {S Frame Action : Type 0} (policy : Inference S Frame Action) where
  -- The thread starts with a reset.
  unfoldable pub start : S → Option String → State S Frame Action
  start s text = record {
    running = true;
    queue = [];
    place = looping;
    inference_state = policy.reset s;
    shared_text = text;
    out = [];
    sent = [];
  }

  -- The answer to a frame, or none when an exception was logged.
  unfoldable pub reply : Item Frame → Result Action → List (Option (Reply Action))
  reply item (ok action) =
      some (record { id = item.id; start_time = item.start_time; action = action }) ∷ []
  reply item (raise e) = []

  -- The frame in hand is answered; an exception is logged, and the loop goes on.
  unfoldable pub answer : State S Frame Action → Item Frame → State S Frame Action
  unfolding reply
  answer s item =
      let (inference_state, result) =
        policy.get_action s.inference_state item.frame s.shared_text in
      record s {
        place = looping;
        inference_state = inference_state;
        out = s.out ++ reply item result;
      }

  -- The thread was asked to stop.
  unfoldable pub finish : State S Frame Action → State S Frame Action
  finish s = record s { place = stopped; out = s.out ++ (none ∷ []) }

  -- The inner loop, while nothing is put on the queue: the newest frame, or `none`.
  unfoldable pub drain :
      Item Frame → List (Option (Item Frame)) → Option (Item Frame) × List (Option (Item Frame))
  drain item [] = (some item, [])
  drain item (none ∷ queue) = (none, queue)
  drain item (some newer ∷ queue) = drain newer queue

  -- What becomes of a frame in hand, while nothing is put on the queue.
  unfoldable pub settle : State S Frame Action → Item Frame → State S Frame Action
  unfolding drain answer finish
  settle s item =
      let (newest, queue) = drain item s.queue in
      elim newest [
        | none ↦ finish (record s { queue = queue })
        | some latest ↦ answer (record s { queue = queue }) latest
      ]

  -- The loop at its test, with this value of `running` and this queue.
  unfoldable pub round_at :
      State S Frame Action → Bool → List (Option (Item Frame)) → State S Frame Action
  unfolding settle finish
  round_at s false queue = record s { place = stopped }
  round_at s true [] = s
  round_at s true (none ∷ queue) = finish (record s { queue = queue })
  round_at s true (some item ∷ queue) = settle (record s { queue = queue }) item

  -- One round of the outer loop, from its test on, while nothing is put on the queue.
  unfoldable pub round : State S Frame Action → State S Frame Action
  unfolding round_at
  round s = round_at s s.running s.queue

  -- The steps of the thread, and those of the others between them: a frame or `none` is put on the
  -- queue, the text is set, the server is told to stop.
  pub data Step (s t : State S Frame Action) : Type 0 where
    put :
        (item : Option (Item Frame))
        → t ≡ record s { queue = s.queue ++ (item ∷ []); sent = s.sent ++ (item ∷ []) }
        → Step s t
    set_text : (text : String) → t ≡ record s { shared_text = some text } → Step s t
    shut_down : t ≡ record s { running = false } → Step s t
    enter : s.place ≡ looping → s.running ≡ true → t ≡ record s { place = waiting } → Step s t
    time_out : s.place ≡ waiting → s.queue ≡ [] → t ≡ record s { place = looping } → Step s t
    take :
        (item : Item Frame) (queue : List (Option (Item Frame)))
        → s.place ≡ waiting
        → s.queue ≡ some item ∷ queue
        → t ≡ record s { place = holding item; queue = queue }
        → Step s t
    take_none :
        (queue : List (Option (Item Frame)))
        → s.place ≡ waiting
        → s.queue ≡ none ∷ queue
        → t ≡ finish (record s { queue = queue })
        → Step s t
    drop_older :
        (item newer : Item Frame) (queue : List (Option (Item Frame)))
        → s.place ≡ holding item
        → s.queue ≡ some newer ∷ queue
        → t ≡ record s { place = holding newer; queue = queue }
        → Step s t
    drop_last :
        (item : Item Frame) (queue : List (Option (Item Frame)))
        → s.place ≡ holding item
        → s.queue ≡ none ∷ queue
        → t ≡ finish (record s { queue = queue })
        → Step s t
    act : (item : Item Frame) → s.place ≡ holding item → s.queue ≡ [] → t ≡ answer s item → Step s t
    leave : s.place ≡ looping → s.running ≡ false → t ≡ record s { place = stopped } → Step s t

  pub data Steps (s : State S Frame Action) : State S Frame Action → Type 0 where
    rest : Steps s s
    more : {t u : State S Frame Action} → Steps s t → Step t u → Steps s u
