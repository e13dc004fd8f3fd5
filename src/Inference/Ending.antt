-- ===== src/Inference/Ending.antt =====
-- Every way in which the thread that handles requests can end by itself (elefant/policy_model/inference.py).
use mathlib.Core.Path.{subst}
use p2p_rdt.Common.{
  ◌≡◌, ◌⊎◌, refl, sym, ap, ◌∙◌, Bool, true, false, List, [], ◌∷◌, ◌++◌, Option, none, some, map,
  inl, inr,
}
use p2p_rdt.Inference.Base.{Inference}
use p2p_rdt.Inference.Requests.{
  Item, Place, looping, waiting, stopped, holding, State, finish, settle, round, round_at, Step,
  put, set_text, shut_down, enter, time_out, take, take_none, drop_older, drop_last, act, leave,
  drain,
}
use p2p_rdt.Inference.Stopping.{Own, OwnSteps, rest, more, round-OwnSteps}

module _ {Frame : Type 0} where
  -- A queue with frames before a request to stop, and `later` behind it.
  abbrev pub Asked : List (Option (Item Frame)) → List (Option (Item Frame)) → Type 0
  Asked later queue = (items : List (Item Frame)) × (queue ≡ map some items ++ (none ∷ later))

  abbrev tail : List (Option (Item Frame)) → List (Option (Item Frame))
  tail [] = []
  tail (x ∷ xs) = xs

  Asked-nonempty :
      (items : List (Item Frame)) (later : List (Option (Item Frame)))
      → map some items ++ (none ∷ later) ≡ []
      → ⊥
  Asked-nonempty [] later e = cc
  Asked-nonempty (item ∷ items) later e = cc

  Asked-frame :
      (items : List (Item Frame)) (later queue : List (Option (Item Frame))) (item : Item Frame)
      → map some items ++ (none ∷ later) ≡ some item ∷ queue
      → Asked later queue
  Asked-frame [] later queue item e = absurd (cc)
  Asked-frame (first ∷ items) later queue item e = (items, sym (ap tail e))

  Asked-none :
      (items : List (Item Frame)) (later queue : List (Option (Item Frame)))
      → map some items ++ (none ∷ later) ≡ none ∷ queue
      → queue ≡ later
  Asked-none [] later queue e = sym (ap tail e)
  Asked-none (first ∷ items) later queue e = absurd (cc)

module _ {S Frame Action : Type 0} (policy : Inference S Frame Action)
    (later : List (Option (Item Frame))) (s : State S Frame Action) where
  -- The answers and the state of the policy are as they were.
  abbrev Kept : State S Frame Action → Type 0
  Kept t = (t.out ≡ s.out) × (t.inference_state ≡ s.inference_state)

  -- How the thread ends: it was running, tells the callback once that it stopped, and leaves what stands behind
  -- the request; or it was shut down before, and leaves everything. The state of the policy is as it was.
  abbrev pub Ended : State S Frame Action → Type 0
  Ended t =
      (t.inference_state ≡ s.inference_state)
      × (((s.running ≡ true) × (t.out ≡ s.out ++ (none ∷ [])) × (t.queue ≡ later))
          ⊎ ((s.running ≡ false) × (t.out ≡ s.out) × (t.queue ≡ s.queue)))

  abbrev Phase : Place Frame → State S Frame Action → Type 0
  Phase looping t = Kept t × (t.queue ≡ s.queue) × (t.running ≡ s.running)
  Phase waiting t = Kept t × Asked later t.queue × (s.running ≡ true)
  Phase (holding item) t = Kept t × Asked later t.queue × (s.running ≡ true)
  Phase stopped t = Ended t

  Step-Phase :
      (t u : State S Frame Action) (step : Step policy t u)
      → Asked later s.queue
      → Own policy step
      → Phase t.place t
      → Phase u.place u
  unfolding finish
  Step-Phase t u (put item e) asked own h = absurd own
  Step-Phase t u (set_text text e) asked own h = absurd own
  Step-Phase t u (shut_down e) asked own h = absurd own
  Step-Phase t u (enter at on e) asked own h =
      let (kept, q, same) = subst (λ place. Phase place t) at h in
      rw e (kept, (asked.0, q ∙ asked.1), sym same ∙ on)
  Step-Phase t u (leave at off e) asked own h =
      let (kept, q, same) = subst (λ place. Phase place t) at h in
      rw e (kept.1, inr (sym same ∙ off, kept.0, q))
  Step-Phase t u (time_out at q e) asked own h =
      let (kept, (items, z), on) = subst (λ place. Phase place t) at h in
      absurd (Asked-nonempty items later (sym z ∙ q))
  Step-Phase t u (take item queue at q e) asked own h =
      let (kept, (items, z), on) = subst (λ place. Phase place t) at h in
      rw e (kept, Asked-frame items later queue item (sym z ∙ q), on)
  Step-Phase t u (take_none queue at q e) asked own h =
      let (kept, (items, z), on) = subst (λ place. Phase place t) at h in
      rw e (
        kept.1,
        inl (on, ap (λ out. out ++ (none ∷ [])) kept.0, Asked-none items later queue (sym z ∙ q)),
      )
  Step-Phase t u (drop_older item newer queue at q e) asked own h =
      let (kept, (items, z), on) = subst (λ place. Phase place t) at h in
      rw e (kept, Asked-frame items later queue newer (sym z ∙ q), on)
  Step-Phase t u (drop_last item queue at q e) asked own h =
      let (kept, (items, z), on) = subst (λ place. Phase place t) at h in
      rw e (
        kept.1,
        inl (on, ap (λ out. out ++ (none ∷ [])) kept.0, Asked-none items later queue (sym z ∙ q)),
      )
  Step-Phase t u (act item at q e) asked own h =
      let (kept, (items, z), on) = subst (λ place. Phase place t) at h in
      absurd (Asked-nonempty items later (sym z ∙ q))

  OwnSteps-Phase :
      (t : State S Frame Action)
      → Asked later s.queue
      → s.place ≡ looping
      → OwnSteps policy s t
      → Phase t.place t
  OwnSteps-Phase t asked at rest =
      subst (λ place. Phase place s) (sym at) ((refl, refl), refl, refl)
  OwnSteps-Phase t asked at (more {t = mid} before step own) =
      Step-Phase mid t step asked own (OwnSteps-Phase mid asked at before)

  settle_stops :
      (items : List (Item Frame)) (item : Item Frame)
      → (settle policy (record s { queue = map some items ++ (none ∷ later) }) item).place ≡ stopped
  unfolding settle drain finish
  settle_stops [] item = refl
  settle_stops (newer ∷ items) item = settle_stops items newer

  round_stops : Asked later s.queue → (round policy s).place ≡ stopped
  unfolding round round_at finish
  round_stops (items, q) =
      ap (λ queue. (round_at policy s s.running queue).place) q ∙ ended s.running items
    where
      ended :
          (running : Bool) (items : List (Item Frame))
          → (round_at policy s running (map some items ++ (none ∷ later))).place ≡ stopped
      ended false items = refl
      ended true [] = refl
      ended true (item ∷ items) = settle_stops items item

  -- A thread at the test of its loop, with a request to stop on the queue behind any number of frames, and without any other
  -- event: it comes to its end, and whichever of its steps bring it to an end, it then has answered none of
  -- the frames and left the state of the policy as it is. If it was running, it told the callback once
  -- that it stopped and left on the queue what stands behind the request; if it was shut down before, it told
  -- nothing and left the queue.
  pub stop_lem :
      Asked later s.queue
      → s.place ≡ looping
      → ((t : State S Frame Action) × OwnSteps policy s t × (t.place ≡ stopped))
        × ((t : State S Frame Action) → OwnSteps policy s t → t.place ≡ stopped → Ended t)
  stop_lem asked at = (
    (round policy s, round-OwnSteps policy s at, round_stops asked),
    λ t steps stop. subst (λ place. Phase place t) stop (OwnSteps-Phase t asked at steps),
  )
