-- ===== src/Inference/Replies.antt =====
-- Which frames are answered (elefant/policy_model/inference.py): in every run of the thread and of
-- those that feed it.
use mathlib.Core.List.{append_assoc, append-nil}
use mathlib.Core.Path.{subst}
use p2p_rdt.Common.{ℕ, ◌≡◌, refl, sym, ap, ◌∙◌, List, [], ◌∷◌, ◌++◌, Option, none, some, String}
use p2p_rdt.Common.Results.{Result, ok, raise}
use p2p_rdt.Inference.Base.{Inference}
use p2p_rdt.Inference.Requests.{
  Item, Reply, Place, looping, waiting, stopped, holding, State, start, reply, answer, finish, Step,
  put, set_text, shut_down, enter, time_out, take, take_none, drop_older, drop_last, act, leave,
  Steps, rest, more,
}

-- The first list is made from the second by leaving out elements.
pub data Sub : List ℕ → List ℕ → Type 0 where
  done : Sub [] []
  skip : {xs ys : List ℕ} (y : ℕ) → Sub xs ys → Sub xs (y ∷ ys)
  keep : {xs ys : List ℕ} (x : ℕ) → Sub xs ys → Sub (x ∷ xs) (x ∷ ys)

Sub-skip_last : {xs ys : List ℕ} (y : ℕ) → Sub xs ys → Sub xs (ys ++ (y ∷ []))
Sub-skip_last y done = skip y done
Sub-skip_last y (skip z s) = skip z (Sub-skip_last y s)
Sub-skip_last y (keep x s) = keep x (Sub-skip_last y s)

Sub-keep_last : {xs ys : List ℕ} (x : ℕ) → Sub xs ys → Sub (xs ++ (x ∷ [])) (ys ++ (x ∷ []))
Sub-keep_last x done = keep x done
Sub-keep_last x (skip z s) = skip z (Sub-keep_last x s)
Sub-keep_last x (keep z s) = keep z (Sub-keep_last x s)

Sub-append : {xs ys : List ℕ} (zs : List ℕ) → Sub xs ys → Sub xs (ys ++ zs)
Sub-append [] s = rw (append-nil _) s
Sub-append {ys = ys} (z ∷ zs) s =
    rw (← append_assoc ys (z ∷ []) zs) (Sub-append zs (Sub-skip_last z s))

module _ {Frame : Type 0} where
  -- The ids of the frames among what was put on a queue.
  abbrev pub frame_ids : List (Option (Item Frame)) → List ℕ
  frame_ids [] = []
  frame_ids (none ∷ items) = frame_ids items
  frame_ids (some item ∷ items) = item.id ∷ frame_ids items

  frame_ids-append :
      (xs ys : List (Option (Item Frame))) → frame_ids (xs ++ ys) ≡ frame_ids xs ++ frame_ids ys
  frame_ids-append [] ys = refl
  frame_ids-append (none ∷ xs) ys = frame_ids-append xs ys
  frame_ids-append (some item ∷ xs) ys = ap (◌∷◌ item.id) (frame_ids-append xs ys)

  -- Of the frames that were taken, those answered; the one in hand is the last that was taken.
  abbrev Sits : Place Frame → List ℕ → List ℕ → Type 0
  Sits looping taken answered = Sub answered taken
  Sits waiting taken answered = Sub answered taken
  Sits stopped taken answered = Sub answered taken
  Sits (holding item) taken answered =
      (before : List ℕ) × (taken ≡ before ++ (item.id ∷ [])) × Sub answered before

module _ {Action : Type 0} where
  -- The ids of the frames that were answered.
  abbrev pub reply_ids : List (Option (Reply Action)) → List ℕ
  reply_ids [] = []
  reply_ids (none ∷ replies) = reply_ids replies
  reply_ids (some r ∷ replies) = r.id ∷ reply_ids replies

  reply_ids-append :
      (xs ys : List (Option (Reply Action))) → reply_ids (xs ++ ys) ≡ reply_ids xs ++ reply_ids ys
  reply_ids-append [] ys = refl
  reply_ids-append (none ∷ xs) ys = reply_ids-append xs ys
  reply_ids-append (some r ∷ xs) ys = ap (◌∷◌ r.id) (reply_ids-append xs ys)

  reply_ids-none :
      (xs : List (Option (Reply Action))) → reply_ids (xs ++ (none ∷ [])) ≡ reply_ids xs
  reply_ids-none xs = reply_ids-append xs (none ∷ []) ∙ append-nil (reply_ids xs)

module _ {S Frame Action : Type 0} (policy : Inference S Frame Action) where
  abbrev Inv : State S Frame Action → Type 0
  Inv s =
      (taken : List ℕ) × (frame_ids s.sent ≡ taken ++ frame_ids s.queue)
      × Sits s.place taken (reply_ids s.out)

  Sits-reply :
      (item : Item Frame) (out : List (Option (Reply Action))) (result : Result Action)
      (before : List ℕ)
      → Sub (reply_ids out) before
      → Sub (reply_ids (out ++ reply policy item result)) (before ++ (item.id ∷ []))
  unfolding reply
  Sits-reply item out (ok action) before s = rw (reply_ids-append out _) (Sub-keep_last item.id s)
  Sits-reply item out (raise e) before s = rw (append-nil out) (Sub-skip_last item.id s)

  Sits-place :
      (p : Place Frame) (taken answered : List ℕ) → Sits p taken answered → Sub answered taken
  Sits-place looping taken answered h = h
  Sits-place waiting taken answered h = h
  Sits-place stopped taken answered h = h
  Sits-place (holding item) taken answered h = rw h.1 (Sub-skip_last item.id h.2)

  Step-Inv : (s t : State S Frame Action) → Step policy s t → Inv s → Inv t
  unfolding finish answer
  Step-Inv s t (put item e) (taken, h, p) = rw e (
    taken,
    frame_ids-append s.sent (item ∷ [])
        ∙ ap (λ xs. xs ++ frame_ids (item ∷ [])) h
        ∙ append_assoc taken (frame_ids s.queue) (frame_ids (item ∷ []))
        ∙ ap (λ xs. taken ++ xs) (sym (frame_ids-append s.queue (item ∷ []))),
    p,
  )
  Step-Inv s t (set_text text e) h = rw e h
  Step-Inv s t (shut_down e) h = rw e h
  Step-Inv s t (enter at on e) (taken, h, p) =
      let sub = Sits-place s.place taken (reply_ids s.out) p in rw e (taken, h, sub)
  Step-Inv s t (time_out at q e) (taken, h, p) =
      let sub = Sits-place s.place taken (reply_ids s.out) p in rw e (taken, h, sub)
  Step-Inv s t (take item queue at q e) (taken, h, p) =
      let sub = Sits-place s.place taken (reply_ids s.out) p in
      rw e (
        taken ++ (item.id ∷ []),
        h
            ∙ ap (λ items. taken ++ frame_ids items) q
            ∙ sym (append_assoc taken (item.id ∷ []) (frame_ids queue)),
        (taken, refl, sub),
      )
  Step-Inv s t (take_none queue at q e) (taken, h, p) =
      let sub = Sits-place s.place taken (reply_ids s.out) p in
      rw e (taken, h ∙ ap (λ items. taken ++ frame_ids items) q, rw (reply_ids-none s.out) sub)
  Step-Inv s t (drop_older item newer queue at q e) (taken, h, p) =
      let sub = Sits-place s.place taken (reply_ids s.out) p in
      rw e (
        taken ++ (newer.id ∷ []),
        h
            ∙ ap (λ items. taken ++ frame_ids items) q
            ∙ sym (append_assoc taken (newer.id ∷ []) (frame_ids queue)),
        (taken, refl, sub),
      )
  Step-Inv s t (drop_last item queue at q e) (taken, h, p) =
      let sub = Sits-place s.place taken (reply_ids s.out) p in
      rw e (taken, h ∙ ap (λ items. taken ++ frame_ids items) q, rw (reply_ids-none s.out) sub)
  Step-Inv s t (act item at q e) (taken, h, p) =
      let held : Sits (holding item) taken (reply_ids s.out) =
        subst (λ place. Sits place taken (reply_ids s.out)) at p in
      let result = policy.get_action s.inference_state item.frame s.shared_text in
      rw e (taken, h, rw held.1 (Sits-reply item s.out result.1 held.0 held.2))
  Step-Inv s t (leave at off e) (taken, h, p) =
      let sub = Sits-place s.place taken (reply_ids s.out) p in rw e (taken, h, sub)

  Steps-Inv : (s t : State S Frame Action) → Steps policy s t → Inv s → Inv t
  Steps-Inv s t rest h = h
  Steps-Inv s t (more {t = u} before step) h = Step-Inv u t step (Steps-Inv s u before h)

  start-Inv : (s : S) (text : Option String) → Inv (start policy s text)
  unfolding start
  start-Inv s text = ([], refl, done)

  -- In every state that the thread can reach, whatever was put on the queue between its steps: the
  -- ids that were answered are those of some of the frames that were put, in the same order.
  pub answered_in_order :
      (s0 : S) (text : Option String) (s : State S Frame Action)
      → Steps policy (start policy s0 text) s
      → Sub (reply_ids s.out) (frame_ids s.sent)
  answered_in_order s0 text s steps =
      let (taken, h, p) = Steps-Inv (start policy s0 text) s steps (start-Inv s0 text) in
      rw h (Sub-append (frame_ids s.queue) (Sits-place s.place taken (reply_ids s.out) p))

  -- In every state that the thread can reach with a frame in hand and an empty queue, which is when it answers that frame: the frame
  -- is the last that was put on the queue, and all answers so far are to frames before it.
  pub answered_newest :
      (s0 : S) (text : Option String) (s : State S Frame Action) (item : Item Frame)
      → Steps policy (start policy s0 text) s
      → s.place ≡ holding item
      → s.queue ≡ []
      → (before : List ℕ) × (frame_ids s.sent ≡ before ++ (item.id ∷ []))
        × Sub (reply_ids s.out) before
  answered_newest s0 text s item steps at q =
      let (taken, h, p) = Steps-Inv (start policy s0 text) s steps (start-Inv s0 text) in
      let held : Sits (holding item) taken (reply_ids s.out) =
        subst (λ place. Sits place taken (reply_ids s.out)) at p in
      (held.0, h ∙ ap (λ items. taken ++ frame_ids items) q ∙ append-nil taken ∙ held.1, held.2)
